-- ===== src/Util/BiDiConn/ConnectBack.antt =====
-- bidiconn.cpp: a server's connection, which connects back to the service that the client names.
use gocusp.Cusp.InStream
use gocusp.Base.{
  [], ap, arith, false, leb, length, le→leb, ltb, lt→ltb, none, refl, some, true, ℕ, ◌++◌, ◌<◌,
  ◌==◌, ◌^◌, ◌∙◌, ◌∷◌, ◌≡◌,
}
use gocusp.Cusp.Behaviour.Links.{host_connect-Linked}
use gocusp.Cusp.Behaviour.Streams.{engine_step-quiet, read-live}
use gocusp.Cusp.Lifecycle.{IsValidAt, object_at}
use gocusp.Cusp.Ref.{ref}
use gocusp.Ml.{minus_one, pos}
use gocusp.Runtime.Engine.{Bytes, Engine, Pointer, ServiceId, host_connect, in_stream_read}
use gocusp.Runtime.Handles.{host, in_stream, out_stream}
use gocusp.Runtime.World.{World, returns}
use gocusp.Util.BiDiConn.{Owned, bytes_service, on_receive, service_bytes}
use gocusp.Util.SingleCycle.{RequestHandler, ServerConn, no_bytes, server_events}

pub service_roundtrip :
    (s : ServiceId) (rest : Bytes) → s < 2 ^ 16 → bytes_service (service_bytes s ++ rest) ≡ s
service_roundtrip s rest h = omega arith

-- A server's connection as it is created, with its owner.
abbrev pub accepted : {C : Type 0} → (hh hi : ℕ) → C → Owned C
accepted hh hi c = record {
  owner = c;
  conn = record {
    remote_service = 0;
    local_service = 0;
    host_ = ref host (pos hh);
    is = ref in_stream (pos hi);
    os = ref out_stream minus_one;
    contact_set = false;
    contact = none;
  };
}

-- A server's connection as it is created, from a host and over an in stream whose handles are in
-- use, with a self address that is not null, that is not ready to send and has no response yet.
-- When the first bytes that arrive are a service, a number below 2 ^ 16, as a client sends it,
-- followed by at least one more byte: the engine is asked for a stream to that service of that
-- host and then for one read, and gets no other call; the connection gets an out stream with a
-- handle in use for the new stream, keeps the service, and is ready to send; and what follows
-- the service is added to the request. The free list of the bucket of out streams must link
-- exactly its free cells, and the engine must take both calls.
pub connects_back :
    (E : Engine) (self : Pointer) (calls : RequestHandler) (w : World) (hh xh hi si : ℕ)
    (server : ServerConn) (service : ServiceId) (first : ℕ) (rest : Bytes)
    → (self == 0) ≡ false
    → service < 2 ^ 16
    → server.send_ready ≡ false
    → server.response ≡ []
    → object_at host w hh ≡ some xh
    → object_at in_stream w hi ≡ some si
    → IsValidAt out_stream w
    → E.raises w.log (host_connect xh service) ≡ false
    → E.raises (host_connect xh service ∷ w.log) (in_stream_read si minus_one self) ≡ false
    → (ho : ℕ) × (after : World) × (on_receive E self
          (server_events E self calls)
          (service_bytes service ++ (first ∷ rest))
          (accepted hh hi server)
          w
        ≡ returns
            (some (record {
              owner = record server {
                send_ready = true;
                request = server.request ++ (first ∷ rest);
              };
              conn = record (accepted hh hi server).conn {
                remote_service = service;
                os = ref out_stream (pos ho);
              };
            }))
            after)
      × (object_at out_stream after ho ≡ some (E.object w.log (host_connect xh service)))
      × (after.log ≡ (in_stream_read si minus_one self ∷ host_connect xh service ∷ w.log))
unfolding on_receive server_events
connects_back E self calls w hh xh hi si server service first rest bound small unready no_response
      live_host live_in v quiet read_quiet =
    let l = host_connect-Linked E w hh xh service live_host v quiet in
    let bytes = service_bytes service ++ (first ∷ rest) in
    let long : leb 2 (length bytes) ≡ true = le→leb 2 (length bytes) (omega arith) in
    let more : ltb 2 (length bytes) ≡ true = lt→ltb 2 (length bytes) (omega arith) in
    let silent : no_bytes server.response ≡ true = ap no_bytes no_response in
    let same_log : l.after.log ≡ (host_connect xh service ∷ w.log) =
      ap (λ (u : World). u.log) l.only in
    let still : object_at in_stream l.after hi ≡ some si =
      ap (λ (u : World). object_at in_stream u hi) l.only ∙ live_in in
    let asked : InStream.read E (ref in_stream (pos hi)) self minus_one l.after
        ≡ returns tt (record l.after { log = in_stream_read si minus_one self ∷ l.after.log }) =
      read-live E l.after hi si self bound minus_one still
      ∙ engine_step-quiet E (in_stream_read si minus_one self) l.after (rw same_log read_quiet) in
    (
      l.handle,
      record l.after { log = in_stream_read si minus_one self ∷ l.after.log },
      rw (long, service_roundtrip service (first ∷ rest) small, l.connected)
          (rw (l.assigned) (rw (l.dropped) (rw (unready, silent, more) (rw asked refl)))),
      l.live,
      ap (λ log. in_stream_read si minus_one self ∷ log) same_log,
    )
