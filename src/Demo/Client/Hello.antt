-- ===== src/Demo/Client/Hello.antt =====
-- client.cpp: Client::onContact, and what the server does with the message that it sends.
use gocusp.Cusp.Host
use gocusp.Cusp.OutStream
use gocusp.Demo.Server
use gocusp.Base.{false, some, ℕ, ◌==◌, ◌∷◌, ◌≡◌}
use gocusp.Cusp.Lifecycle.{IsValidAt, object_at}
use gocusp.Cusp.Ref.{ref}
use gocusp.Demo.Client.{Client}
use gocusp.Demo.Server.{Connection, Server, find}
use gocusp.Ml.{minus_one, pos}
use gocusp.Runtime.Engine.{Engine, Log, Pointer, host_listen, out_stream_write}
use gocusp.Runtime.Handles.{host, in_stream, out_stream}
use gocusp.Runtime.World.{Run, World, returns}
use gocusp.Util.BiDiConn.{service_bytes}

-- What a client is once it has found the server.
pub record Greeting (E : Engine) (self : Pointer) (c : Client) (w : World) (x stream : ℕ)
    (run : Run Client) : Type 0 where
  pub host_handle : ℕ
  pub handle : ℕ
  pub after : World
  pub described : Log
  pub returned :
      run
      ≡ returns
          (record c { host = ref host (pos host_handle); os = ref out_stream (pos handle) })
          after
  pub live_host : object_at host after host_handle ≡ some x
  pub live : object_at out_stream after handle ≡ some stream
  pub calls :
      after.log
      ≡ out_stream_write stream (service_bytes (E.word described (host_listen x self))) self
        ∷ host_listen x self
        ∷ described

-- A client that the library tells of the host and the stream under the handles `hh` and `hs`.
pub record IsContacted (c : Client) (w : World) (hh x hs stream : ℕ) : Type 0 where
  pub no_host : c.host ≡ ref host minus_one
  pub no_stream : c.os ≡ ref out_stream minus_one
  pub hosts : IsValidAt host w × (object_at host w hh ≡ some x)
  pub streams : IsValidAt out_stream w × (object_at out_stream w hs ≡ some stream)

-- A connection of the server that waits for the first message of its client.
pub record IsWaiting (s : Server) (d : Connection) (u : World) (hh y hi si : ℕ) : Type 0 where
  pub found : find d.self s.objects ≡ some d
  pub bound : (d.self == 0) ≡ false
  pub from : (d.remote_host ≡ ref host (pos hh)) × (object_at host u hh ≡ some y)
  pub reads : (d.is ≡ ref in_stream (pos hi)) × (object_at in_stream u hi ≡ some si)
  pub unset : d.os ≡ ref out_stream minus_one
  pub streams : IsValidAt out_stream u
