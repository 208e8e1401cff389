-- ===== src/Util/SingleCycle/Request.antt =====
-- singlecycleconn.cpp and bidiconn.cpp: SingleCycleConn::request to a host, from its first call to the
-- response.
use gocusp.Base.{List, ℕ, ◌∷◌, ◌≡◌}
use gocusp.Cusp.Lifecycle.{object_at}
use gocusp.Runtime.Engine.{
  Bytes, Engine, Log, host_connect, host_listen, in_stream_reset, main_run, main_stop,
  out_stream_reset, out_stream_write,
}
use gocusp.Runtime.Handles.{host, in_stream, out_stream}
use gocusp.Runtime.World.{Run, World, returns}
use gocusp.Util.BiDiConn.{service_bytes}
use gocusp.Util.SingleCycle.Opening.{stream_of}
use gocusp.Util.SingleCycle.Receive.{read_log}
use gocusp.Util.SingleCycle.Session.{session_log}

-- The calls of the engine from the first to the last
abbrev pub request_log :
    Engine → (self x service back si : ℕ) → (request : Bytes) → List Bytes → World → Log
request_log E self x service back si request chunks w =
    out_stream_reset (stream_of E x service w)
    ∷ in_stream_reset si
    ∷ main_stop
    ∷ read_log self si chunks (
        session_log self x back (stream_of E x service w) si request (
          main_run
          ∷ out_stream_write (stream_of E x service w) (service_bytes back) self
          ∷ host_listen x self
          ∷ host_connect x service
          ∷ w.log))

pub record Answered (w : World) (bytes : Bytes) (log : Log) (run : Run Bytes) : Type 0 where
  pub after : World
  pub returned : run ≡ returns bytes after
  pub hosts : (j : ℕ) → object_at host after j ≡ object_at host w j
  pub out_streams : (j : ℕ) → object_at out_stream after j ≡ object_at out_stream w j
  pub in_streams : (j : ℕ) → object_at in_stream after j ≡ object_at in_stream w j
  pub only : after ≡ (record w {
    host = after.host;
    out_stream = after.out_stream;
    in_stream = after.in_stream;
    log = log;
  })
