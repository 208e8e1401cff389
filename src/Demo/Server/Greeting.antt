-- ===== src/Demo/Server/Greeting.antt =====
-- server.cpp: Connection::onReceive with the first message of a client, which names a service.
use gocusp.Cusp.Host
use gocusp.Cusp.InStream
use gocusp.Cusp.OutStream
use gocusp.Base.{ap, arith, false, refl, some, ℕ, ◌<◌, ◌==◌, ◌^◌, ◌∙◌, ◌∷◌, ◌≡◌}
use gocusp.Cusp.Behaviour.Links.{host_connect-Linked}
use gocusp.Cusp.Behaviour.Streams.{engine_step-quiet, read-live, write-live}
use gocusp.Cusp.Lifecycle.{IsValidAt, bucket_sub-returns, object_at}
use gocusp.Cusp.Ref.{ref}
use gocusp.Demo.Server.{Connection, Server, find, hello, on_receive, send_message, store}
use gocusp.Ml.{minus_one, pos}
use gocusp.Runtime.Engine.{
  Bytes, Call, Engine, Log, host_connect, host_key, in_stream_read, out_stream_write,
  public_key_to_string,
}
use gocusp.Runtime.Exports.Host.{cusp_host_key_str}
use gocusp.Runtime.Handles.{host, in_stream, out_stream}
use gocusp.Runtime.World.{Run, World, returns}
use gocusp.Util.BiDiConn.{bytes_service, service_bytes}

-- The calls so far, with those that ask for the text of a host's key.
abbrev pub key_log : Engine → ℕ → Log → Log
key_log E x l = public_key_to_string (E.object l (host_key x)) ∷ host_key x ∷ l

pub key_str-live :
    (E : Engine) (w : World) (h x : ℕ)
    → ((l : Log) (c : Call) → E.raises l c ≡ false)
    → object_at host w h ≡ some x
    → (text : Bytes) × (Host.key_str E (ref host (pos h)) w
        ≡ returns text (record w { log = key_log E x w.log }))
unfolding Host.key_str cusp_host_key_str
key_str-live E w h x quiet live =
    let key = E.object w.log (host_key x) in
    (
      E.text (host_key x ∷ w.log) (public_key_to_string key),
      rw
          (
            bucket_sub-returns host w h x live,
            quiet w.log (host_key x),
            quiet (host_key x ∷ w.log) (public_key_to_string key),
          )
          refl,
    )

-- What the server does with the service that a client names.
pub record Greeted (E : Engine) (c : Connection) (x si service : ℕ) (s : Server) (w : World)
    (run : Run Server) : Type 0 where
  pub handle : ℕ
  pub after : World
  pub returned :
      run
      ≡ returns
          (record s {
            objects =
                store (record c { os = ref out_stream (pos handle); ready = false }) s.objects;
          })
          after
  pub live :
      object_at out_stream after handle
      ≡ some (E.object (key_log E x w.log) (host_connect x service))
  pub calls :
      after.log
      ≡ in_stream_read si minus_one c.self
        ∷ out_stream_write (E.object (key_log E x w.log) (host_connect x service)) hello c.self
        ∷ host_connect x service
        ∷ key_log E x w.log

pub on_receive-Greeted :
    (E : Engine) (s : Server) (c : Connection) (w : World) (hh x hi si service : ℕ)
    → ((l : Log) (c : Call) → E.raises l c ≡ false)
    → find c.self s.objects ≡ some c
    → (c.self == 0) ≡ false
    → c.remote_host ≡ ref host (pos hh)
    → object_at host w hh ≡ some x
    → c.is ≡ ref in_stream (pos hi)
    → object_at in_stream w hi ≡ some si
    → c.os ≡ ref out_stream minus_one
    → IsValidAt out_stream w
    → service < 2 ^ 16
    → Greeted E c x si service s w (on_receive E c.self (service_bytes service) s w)
unfolding on_receive send_message
on_receive-Greeted E s c w hh x hi si service quiet found bound from live_host reads live_in unset v
      small =
    let w1 : World = record w { log = key_log E x w.log } in
    let k = key_str-live E w hh x quiet live_host in
    let l =
      host_connect-Linked E w1 hh x service live_host v
        (quiet (key_log E x w.log) (host_connect x service)) in
    let stream = E.object (key_log E x w.log) (host_connect x service) in
    let w2 : World = record l.after { log = out_stream_write stream hello c.self ∷ l.after.log } in
    let still : object_at in_stream l.after hi ≡ some si =
      ap (λ (u : World). object_at in_stream u hi) l.only ∙ live_in in
    let written : OutStream.write E (ref out_stream (pos l.handle)) hello c.self l.after
        ≡ returns tt w2 =
      write-live E l.after l.handle stream c.self bound hello l.live
      ∙ engine_step-quiet E (out_stream_write stream hello c.self) l.after
          (quiet l.after.log (out_stream_write stream hello c.self)) in
    let asked : InStream.read E (ref in_stream (pos hi)) c.self minus_one w2
        ≡ returns tt (record w2 { log = in_stream_read si minus_one c.self ∷ w2.log }) =
      read-live E w2 hi si c.self bound minus_one still
      ∙ engine_step-quiet E (in_stream_read si minus_one c.self) w2
          (quiet w2.log (in_stream_read si minus_one c.self)) in
    let same : bytes_service (service_bytes service) ≡ service = omega arith in
    record {
      handle = l.handle;
      after = record w2 { log = in_stream_read si minus_one c.self ∷ w2.log };
      returned =
          rw (found, from, k.1, unset, same, l.connected)
            (rw (l.assigned) (rw (l.dropped) (rw (written, reads) (rw asked refl))));
      live = l.live;
      calls =
          ap
            (λ (u : World).
              in_stream_read si minus_one c.self ∷ out_stream_write stream hello c.self ∷ u.log)
            l.only;
    }
