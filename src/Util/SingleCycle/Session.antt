-- ===== src/Util/SingleCycle/Session.antt =====
-- singlecycleconn.cpp and bidiconn.cpp: the callbacks that send the request, and the server's stream.
use gocusp.Cusp.InStream
use gocusp.Cusp.OutStream
use gocusp.Util.BiDiConn
use gocusp.Base.{List, [], ap, false, if◌then◌else◌, none, refl, some, ℕ, ◌==◌, ◌∙◌, ◌∷◌, ◌≡◌}
use gocusp.Cusp.Behaviour.Links.{host_unlisten-live}
use gocusp.Cusp.Behaviour.Streams.{engine_step-quiet, read-live, shutdown-live}
use gocusp.Cusp.Classes.{class_of}
use gocusp.Cusp.Init.{cusp_main_loop}
use gocusp.Cusp.Lifecycle.{==-refl, IsValidAt, object_at}
use gocusp.Cusp.Lifecycle.Assign.{assign_to_invalid}
use gocusp.Cusp.Lifecycle.Copy.{copy-Copied}
use gocusp.Cusp.Ref.{ref}
use gocusp.IdBucket.{Bucket}
use gocusp.IdBucket.Chain.{IsValid}
use gocusp.IdBucket.View.{contents}
use gocusp.Ml.{minus_one, pos}
use gocusp.Runtime.Engine.{
  Bytes, Call, Engine, Log, Obj, Pointer, host_unlisten, in_stream_read, main_run,
  out_stream_shutdown, out_stream_write,
}
use gocusp.Runtime.Exports.EndPoint.{cusp_main}
use gocusp.Runtime.Handles.{host, in_stream, out_stream}
use gocusp.Runtime.World.{M, World, returns}
use gocusp.Util.BiDiConn.{BiDiConn, Owned, of_host, send_data}
use gocusp.Util.SingleCycle.{Client, client_events, client_of_host, no_bytes}
use gocusp.Util.SingleCycle.Blocking.{
  Blocked, CycleEvent, begun, connected, event, handle_all, ready,
}
use gocusp.Util.SingleCycle.Opening.{conn_of, is_unlisten, quiet_write}

abbrev pub cycle_of : (handler : Pointer) → Bytes → BiDiConn → Owned Client
cycle_of handler request c = record {
  owner = record { handler = handler; request = request; response = [] };
  conn = c;
}

-- READY for the service, READY for the request, and then the server connects back.
abbrev pub session : (back hs : ℕ) → List CycleEvent
session back hs = ready ∷ ready ∷ connected back (ref in_stream (pos hs)) ∷ []

-- The connection once the server has connected back
abbrev pub settled_of : (service back own os hi : ℕ) → BiDiConn
settled_of service back own os hi = record (conn_of service back own os) {
  local_service = 0;
  is = ref in_stream (pos hi);
}

abbrev pub session_log : (self x back s si : ℕ) → Bytes → Log → Log
session_log self x back s si request l =
    in_stream_read si minus_one self
    ∷ host_unlisten x back
    ∷ out_stream_shutdown s self
    ∷ out_stream_write s request self
    ∷ l

pub record Settled (E : Engine) (self x service back : ℕ) (u : World) (hs s si : ℕ)
    (request : Bytes) (handler own os : ℕ) : Type 0 where
  pub hi : ℕ
  pub in_streams : Bucket Obj
  pub returned :
      handle_all E self
        (session back hs)
        (record { cycle = cycle_of handler request (conn_of service back own os); response = [] })
        u
      ≡ returns
          (record {
            cycle = cycle_of handler [] (settled_of service back own os hi);
            response = [];
          })
          (record u { in_stream = in_streams; log = session_log self x back s si request u.log })
  pub fresh : object_at in_stream u hi ≡ none
  pub objects :
      (j : ℕ) → contents in_streams j ≡ (if hi == j then some si else object_at in_stream u j)
  pub valid : IsValid in_streams

module _ (E : Engine) (quiet : (l : Log) (c : Call) → is_unlisten c ≡ false → E.raises l c ≡ false)
    (self : Pointer) (bound : (self == 0) ≡ false) where
  quiet_shutdown :
      (w : World) (h s : ℕ)
      → object_at out_stream w h ≡ some s
      → OutStream.shutdown E (ref out_stream (pos h)) self w
        ≡ returns tt (record w { log = out_stream_shutdown s self ∷ w.log })
  quiet_shutdown w h s live =
      shutdown-live E w h s self bound live
      ∙ engine_step-quiet E (out_stream_shutdown s self) w
          (quiet w.log (out_stream_shutdown s self) refl)

  quiet_read :
      (w : World) (h s : ℕ)
      → object_at in_stream w h ≡ some s
      → InStream.read E (ref in_stream (pos h)) self minus_one w
        ≡ returns tt (record w { log = in_stream_read s minus_one self ∷ w.log })
  quiet_read w h s live =
      read-live E w h s self bound minus_one live
      ∙ engine_step-quiet E (in_stream_read s minus_one self) w
          (quiet w.log (in_stream_read s minus_one self) refl)

  pub client_made :
      (service back handler : ℕ) (request : Bytes) (h own os : ℕ) (w u : World)
      → of_host E self (ref host (pos h)) service w ≡ returns (conn_of service back own os) u
      → client_of_host E self (ref host (pos h)) service request handler w
        ≡ returns (cycle_of handler request (conn_of service back own os)) u
  unfolding client_of_host
  client_made service back handler request h own os w u e = rw e refl

  pub begun-runs :
      (es : List CycleEvent) (made : M (Owned Client)) (y : Owned Client) (b : Blocked)
      (w u v : World)
      → made w ≡ returns y u
      → handle_all E self es
          (record { cycle = y; response = [] })
          (record u { log = main_run ∷ u.log })
        ≡ returns b v
      → begun E self es made w ≡ returns b v
  unfolding cusp_main_loop cusp_main
  begun-runs es made y b w u v e e' = rw (e, quiet u.log main_run refl) e'

  module _ (x service back : ℕ)
      (takes_unlisten : (l : Log) → E.raises l (host_unlisten x back) ≡ false) where
    request_written :
        (handler own os s : ℕ) (request : Bytes) (u : World)
        → object_at out_stream u os ≡ some s
        → no_bytes request ≡ false
        → event E self ready (cycle_of handler request (conn_of service back own os)) u
          ≡ returns
              (some (cycle_of handler [] (conn_of service back own os)))
              (record u { log = out_stream_write s request self ∷ u.log })
    unfolding BiDiConn.on_ready client_events send_data
    request_written handler own os s request u live full =
        rw (full, quiet_write E quiet self bound u os s request live) refl

    request_ended :
        (handler own os s : ℕ) (u : World)
        → object_at out_stream u os ≡ some s
        → event E self ready (cycle_of handler [] (conn_of service back own os)) u
          ≡ returns
              (some (cycle_of handler [] (conn_of service back own os)))
              (record u { log = out_stream_shutdown s self ∷ u.log })
    unfolding BiDiConn.on_ready client_events BiDiConn.shutdown
    request_ended handler own os s u live = rw (quiet_shutdown u os s live) refl

    connect_back-runs :
        (handler own os hs hi si : ℕ) (u v : World)
        → object_at host u own ≡ some x
        → (class_of in_stream).assign
            (ref in_stream minus_one)
            (ref in_stream (pos hs))
            (record u { log = host_unlisten x back ∷ u.log })
          ≡ returns (ref in_stream (pos hi)) v
        → object_at in_stream v hi ≡ some si
        → event E self
            (connected back (ref in_stream (pos hs)))
            (cycle_of handler [] (conn_of service back own os))
            u
          ≡ returns
              (some (cycle_of handler [] (settled_of service back own os hi)))
              (record v { log = in_stream_read si minus_one self ∷ v.log })
    unfolding BiDiConn.on_connect
    connect_back-runs handler own os hs hi si u v live_host assigned live =
        rw
          (
            ==-refl back,
            host_unlisten-live E u own x back live_host (takes_unlisten u.log),
            assigned,
            quiet_read v hi si live,
          )
          refl

    pub session-Settled :
        (u : World) (hs s si : ℕ) (request : Bytes) (handler own os : ℕ)
        → object_at host u own ≡ some x
        → object_at out_stream u os ≡ some s
        → object_at in_stream u hs ≡ some si
        → IsValidAt in_stream u
        → no_bytes request ≡ false
        → Settled E self x service back u hs s si request handler own os
    unfolding handle_all
    session-Settled u hs s si request handler own os live_host live_out live_in v full =
        let u1 : World = record u { log = out_stream_write s request self ∷ u.log } in
        let u2 : World = record u1 { log = out_stream_shutdown s self ∷ u1.log } in
        let u3 : World = record u2 { log = host_unlisten x back ∷ u2.log } in
        let c = copy-Copied in_stream u3 hs si v live_in in
        let u4 : World = record u3 { in_stream = c.after.in_stream } in
        let here : object_at in_stream u4 c.handle ≡ some si =
          c.change.objects c.handle ∙ rw (==-refl c.handle) refl in
        let assigned =
          assign_to_invalid in_stream (ref in_stream (pos hs)) (ref in_stream (pos c.handle)) u3 u4
            (c.returned ∙ ap (returns (ref in_stream (pos c.handle))) c.change.only) in
        record {
          hi = c.handle;
          in_streams = c.after.in_stream;
          returned = rw (request_written handler own os s request u live_out full) (
              rw (request_ended handler own os s u1 live_out) (
                rw (connect_back-runs handler own os hs c.handle si u2 u4 live_host assigned here)
                  refl));
          fresh = c.fresh;
          objects = c.change.objects;
          valid = c.change.valid;
        }
