-- ===== src/Util/SingleCycle/Reset.antt =====
-- singlecycleconn.cpp and bidiconn.cpp: SingleCycleConn::request when its connection is reset before the
-- server has connected back.
use gocusp.Cusp.OutStream
use gocusp.Util.BiDiConn
use gocusp.Base.{Bool, [], ap, false, not, refl, some, true, ℕ, ◌&&◌, ◌==◌, ◌||◌, ◌∙◌, ◌∷◌, ◌≡◌}
use gocusp.Cusp.Behaviour.Links.{host_unlisten-live, host_unlisten-raises}
use gocusp.Cusp.Behaviour.Streams.{engine_step-quiet, out_reset-live}
use gocusp.Cusp.Init.{cusp_main_stop}
use gocusp.Cusp.Lifecycle.{==-refl, IsValidAt, object_at}
use gocusp.Cusp.Ref.{ref}
use gocusp.Ml.{pos}
use gocusp.Runtime.Engine.{
  Bytes, Call, Engine, Log, Pointer, host_connect, host_listen, host_unlisten, main_run, main_stop,
  out_stream_reset, out_stream_write,
}
use gocusp.Runtime.Exports.EndPoint.{cusp_stop_main}
use gocusp.Runtime.Handles.{host, out_stream}
use gocusp.Runtime.World.{World, engine_exception, returns, stops}
use gocusp.Util.BiDiConn.{BiDiConn, service_bytes}
use gocusp.Util.SingleCycle.{client_events, client_of_host}
use gocusp.Util.SingleCycle.Blocking.{gone, handle_all, request_of_host}
use gocusp.Util.SingleCycle.Opening.{conn_of, is_unlisten, of_host-Made, stream_of}
use gocusp.Util.SingleCycle.Session.{begun-runs, client_made, cycle_of}

-- What `reset` adds to the calls while the connection listens
abbrev pub reset_once : (x back s : ℕ) → Log → Log
reset_once x back s l = out_stream_reset s ∷ host_unlisten x back ∷ l

-- Whether the host `x` listens at a service, by the calls so far, where each `listen` answers it:
-- host-dispatch.fun keeps the services in a hash table.
abbrev pub listens : (x back : ℕ) → Log → Bool
listens x back [] = false
listens x back (host_listen y p ∷ l) = let before = listens x back l in x == y || before
listens x back (host_unlisten y service ∷ l) =
    let before = listens x back l in not (x == y && back == service) && before
listens x back (c ∷ l) = listens x back l

module _ (E : Engine) (quiet : (l : Log) (c : Call) → is_unlisten c ≡ false → E.raises l c ≡ false)
    (self : Pointer) (bound : (self == 0) ≡ false) where
  module _ (x service back : ℕ) (named : (l : Log) → E.word l (host_listen x self) ≡ back)
      (nonzero : (back == 0) ≡ false)
      (removes : (l : Log) → E.raises l (host_unlisten x back) ≡ not (listens x back l)) where
    reset_listening :
        (own os s : ℕ) (u : World)
        → object_at host u own ≡ some x
        → object_at out_stream u os ≡ some s
        → listens x back u.log ≡ true
        → BiDiConn.reset E self (conn_of service back own os) u
          ≡ returns (conn_of service back own os) (record u { log = reset_once x back s u.log })
    unfolding BiDiConn.reset
    reset_listening own os s u live_host live_out heard =
        let u1 : World = record u { log = host_unlisten x back ∷ u.log } in
        let closed : OutStream.reset E (ref out_stream (pos os)) u1
            ≡ returns tt (record u1 { log = out_stream_reset s ∷ u1.log }) =
          out_reset-live E u1 os s live_out
          ∙ engine_step-quiet E (out_stream_reset s) u1 (quiet u1.log (out_stream_reset s) refl) in
        rw
          (
            nonzero,
            host_unlisten-live E u own x back live_host (removes u.log ∙ ap not heard),
            closed,
          )
          refl

    gone-runs :
        (handler own os s : ℕ) (request : Bytes) (u : World)
        → object_at host u own ≡ some x
        → object_at out_stream u os ≡ some s
        → listens x back u.log ≡ true
        → handle_all E self
            (gone ∷ [])
            (record {
              cycle = cycle_of handler request (conn_of service back own os);
              response = [];
            })
            u
          ≡ returns
              (record {
                cycle = cycle_of handler request (conn_of service back own os);
                response = [];
              })
              (record u { log = reset_once x back s (main_stop ∷ u.log) })
    unfolding handle_all BiDiConn.on_reset client_events cusp_main_stop cusp_stop_main
    gone-runs handler own os s request u live_host live_out heard =
        rw
          (
            quiet u.log main_stop refl,
            reset_listening own os s (record u { log = main_stop ∷ u.log }) live_host live_out
                heard,
          )
          refl

    destroy-stops :
        (own os : ℕ) (u : World)
        → object_at host u own ≡ some x
        → listens x back u.log ≡ false
        → BiDiConn.destroy E self (conn_of service back own os) u ≡ stops engine_exception
    unfolding BiDiConn.destroy BiDiConn.reset
    destroy-stops own os u live_host deaf =
        rw (nonzero, host_unlisten-raises E u own x back live_host (removes u.log ∙ ap not deaf))
          refl

    -- SingleCycleConn::request to a host whose handle is in use, with a self address that is
    -- not null and tables of hosts and out streams whose free lists link exactly their free
    -- cells, where the engine always answers listen with the same service other than zero,
    -- and raises an exception on exactly those calls that stop listening at this service
    -- when the host does not listen at it: when the connection is reset before the server
    -- has connected back, the function ends the process on that exception, since both
    -- onReset and the destructor stop listening.
    pub reset_stops :
        (w : World) (h : ℕ) (request : Bytes) (handler : Pointer)
        → object_at host w h ≡ some x
        → IsValidAt host w
        → IsValidAt out_stream w
        → request_of_host E self (ref host (pos h)) service request handler (gone ∷ []) w
          ≡ stops engine_exception
    unfolding request_of_host
    reset_stops w h request handler live vh vo =
        let s = stream_of E x service w in
        let m = of_host-Made E quiet self bound x service back named nonzero w h live vh vo in
        let u : World = record w {
          host = m.hosts;
          out_stream = m.out_streams;
          log =
              out_stream_write s (service_bytes back) self
              ∷ host_listen x self
              ∷ host_connect x service
              ∷ w.log;
        } in
        let u1 : World = record u { log = main_run ∷ u.log } in
        let u2 : World = record u { log = reset_once x back s (main_stop ∷ u1.log) } in
        let own_host : object_at host u1 m.own ≡ some x =
          m.at_hosts m.own ∙ rw (==-refl m.own) refl in
        let own_stream : object_at out_stream u1 m.os ≡ some s =
          m.at_streams m.os ∙ rw (==-refl m.os) refl in
        let heard : listens x back u1.log ≡ true = rw (==-refl x) refl in
        let deaf : listens x back u2.log ≡ false = rw (==-refl x, ==-refl back) refl in
        let cycle = cycle_of handler request (conn_of service back m.own m.os) in
        let stopped =
          begun-runs E quiet self bound (gone ∷ [])
            (client_of_host E self (ref host (pos h)) service request handler) cycle
            (record { cycle = cycle; response = [] }) w u u2
            (client_made E quiet self bound service back handler request h m.own m.os w u
              m.returned)
            (gone-runs handler m.own m.os s request u1 own_host own_stream heard) in
        rw stopped (rw (destroy-stops m.own m.os u2 own_host deaf) refl)
