-- ===== src/Util/SingleCycle/Response.antt =====
-- singlecycleconn.cpp: what SingleCycleConn::request returns, once the response arrives.
use gocusp.Cusp.InStream
use gocusp.Cusp.OutStream
use gocusp.Util.BiDiConn
use gocusp.Base.{
  List, Option, [], append-nil, append_assoc, false, if◌then◌else◌, none, refl, some, ℕ, ◌++◌, ◌==◌,
  ◌∙◌, ◌∷◌, ◌≡◌,
}
use gocusp.Cusp.Behaviour.Streams.{engine_step-quiet, in_reset-live, out_reset-live}
use gocusp.Cusp.Init.{cusp_main_loop, cusp_main_stop}
use gocusp.Cusp.Lifecycle.{IsValidAt, object_at}
use gocusp.Cusp.Lifecycle.Destruct.{destruct-Destructed}
use gocusp.Cusp.Ref.{ref}
use gocusp.Ml.{minus_one, pos}
use gocusp.Runtime.Engine.{
  Bytes, Call, Engine, Log, Pointer, in_stream_read, in_stream_reset, main_stop, out_stream_reset,
}
use gocusp.Runtime.Exports.EndPoint.{cusp_stop_main}
use gocusp.Runtime.Handles.{host, in_stream, out_stream}
use gocusp.Runtime.World.{M, Run, World, and_then, pure, returns, stops}
use gocusp.Util.BiDiConn.{BiDiConn, Owned}
use gocusp.Util.SingleCycle.{Client, client_events}
use gocusp.Util.SingleCycle.Blocking.{
  Blocked, CycleEvent, begun, block_handler, blocked, event, handle_all, kept, received,
  response_to, shut,
}
use gocusp.Util.SingleCycle.Receive.{IsOpen, joined, read_log, receive_one}

-- The callbacks of a response in chunks
abbrev pub arrivals : List Bytes → List CycleEvent
arrivals [] = shut ∷ []
arrivals (b ∷ bs) = received b ∷ arrivals bs

module _ (E : Engine) (self : Pointer) where
  step_append :
      (e : CycleEvent) (response : Bytes) (es fs : List CycleEvent)
      → ((b : Blocked) (w : World)
          → handle_all E self (es ++ fs) b w
            ≡ and_then (handle_all E self es b w) (handle_all E self fs))
      → (r : Run (Option (Owned Client)))
      → and_then r (λ o v. and_then (blocked E self e response o v) (handle_all E self (es ++ fs)))
        ≡ and_then
            (and_then r (λ o v. and_then (blocked E self e response o v) (handle_all E self es)))
            (handle_all E self fs)
  step_append e response es fs ih (returns none w) = refl
  step_append e response es fs ih (returns (some x) w) =
      ih (record { cycle = x; response = kept E self e x response }) w
  step_append e response es fs ih (stops x) = refl

  handle_all-append :
      (es fs : List CycleEvent) (b : Blocked) (w : World)
      → handle_all E self (es ++ fs) b w
        ≡ and_then (handle_all E self es b w) (handle_all E self fs)
  unfolding handle_all
  handle_all-append [] fs b w = refl
  handle_all-append (e ∷ es) fs b w =
      step_append e b.response es fs (handle_all-append es fs) (event E self e b.cycle w)

  loop_append :
      (es fs : List CycleEvent) (b : Blocked) (r : Run (Unit {0}))
      → and_then r (λ u. handle_all E self (es ++ fs) b)
        ≡ and_then (and_then r (λ u. handle_all E self es b)) (handle_all E self fs)
  loop_append es fs b (returns u w) = handle_all-append es fs b w
  loop_append es fs b (stops x) = refl

  made_append :
      (es fs : List CycleEvent) (r : Run (Owned Client))
      → and_then r (λ x. begun E self (es ++ fs) (pure x))
        ≡ and_then (and_then r (λ x. begun E self es (pure x))) (handle_all E self fs)
  made_append es fs (returns x w) =
      loop_append es fs (record { cycle = x; response = [] }) (cusp_main_loop E w)
  made_append es fs (stops x) = refl

  module _ (quiet : (l : Log) (c : Call) → E.raises l c ≡ false) (hh hi ho x si so : ℕ)
      (bound : (self == 0) ≡ false) where
    answered :
        (chunks : List Bytes) (b : Blocked) (w : World)
        → IsOpen hi ho b.cycle.conn
        → object_at in_stream w hi ≡ some si
        → let all = b.cycle.owner.response ++ joined chunks in
          handle_all E self (arrivals chunks) b w
          ≡ returns
              (record {
                cycle = record b.cycle { owner = record b.cycle.owner { response = all } };
                response = all;
              })
              (record w { log = main_stop ∷ read_log self si chunks w.log })
    unfolding handle_all client_events BiDiConn.on_shutdown cusp_main_stop cusp_stop_main
    answered [] b w open_ live = rw (quiet w.log main_stop, append-nil b.cycle.owner.response) refl
    answered (c ∷ chunks) b w open_ live =
        let y = record b.cycle.owner { response = b.cycle.owner.response ++ c } in
        rw
          (receive_one E self hi ho si bound (λ l. quiet l (in_stream_read si minus_one self))
            (client_events E self (block_handler E self)) c b.cycle y w open_ live refl)
          (answered chunks (record b { cycle = record b.cycle { owner = y } })
              (record w { log = in_stream_read si minus_one self ∷ w.log }) open_ live
            ∙ rw (append_assoc b.cycle.owner.response c (joined chunks)) refl)

    -- The connection is given up: its streams are reset and its handles are freed.
    pub record GivenUp (w : World) (log : Log) (after : World) : Type 0 where
      pub out_streams :
          (j : ℕ)
          → object_at out_stream after j ≡ (if ho == j then none else object_at out_stream w j)
      pub in_streams :
          (j : ℕ)
          → object_at in_stream after j ≡ (if hi == j then none else object_at in_stream w j)
      pub hosts : (j : ℕ) → object_at host after j ≡ (if hh == j then none else object_at host w j)
      pub only : after ≡ (record w {
        out_stream = after.out_stream;
        in_stream = after.in_stream;
        host = after.host;
        log = out_stream_reset so ∷ in_stream_reset si ∷ log;
      })

    -- A connection with both streams open, for which nothing listens any more.
    pub record IsSettled (c : BiDiConn) (w : World) : Type 0 where
      pub open_ : IsOpen hi ho c
      pub at_host : c.host_ ≡ ref host (pos hh)
      pub not_listening : c.local_service ≡ 0
      pub not_contacting : c.contact_set ≡ false
      pub out_streams : IsValidAt out_stream w × (object_at out_stream w ho ≡ some so)
      pub in_streams : IsValidAt in_stream w × (object_at in_stream w hi ≡ some si)
      pub hosts : IsValidAt host w × (object_at host w hh ≡ some x)

    given_up :
        (c : BiDiConn) (w : World) (log : Log)
        → IsSettled c w
        → (after : World) × (BiDiConn.destroy E self c (record w { log = log }) ≡ returns tt after)
          × GivenUp w log after
    unfolding BiDiConn.destroy BiDiConn.reset
    given_up c w log s =
        let w1 : World = record w { log = log } in
        let w2 : World = record w { log = in_stream_reset si ∷ log } in
        let w3 : World = record w { log = out_stream_reset so ∷ in_stream_reset si ∷ log } in
        let a = destruct-Destructed out_stream w3 ho so s.out_streams.0 s.out_streams.1 in
        let w4 : World = record w3 { out_stream = a.after.out_stream } in
        let b = destruct-Destructed in_stream w4 hi si s.in_streams.0 s.in_streams.1 in
        let w5 : World = record w4 { in_stream = b.after.in_stream } in
        let d = destruct-Destructed host w5 hh x s.hosts.0 s.hosts.1 in
        let first : InStream.reset E (ref in_stream (pos hi)) w1 ≡ returns tt w2 =
          in_reset-live E w1 hi si s.in_streams.1
          ∙ engine_step-quiet E (in_stream_reset si) w1 (quiet log (in_stream_reset si)) in
        let second : OutStream.reset E (ref out_stream (pos ho)) w2 ≡ returns tt w3 =
          out_reset-live E w2 ho so s.out_streams.1
          ∙ engine_step-quiet E (out_stream_reset so) w2 (quiet w2.log (out_stream_reset so)) in
        (
          record w5 { host = d.after.host },
          rw
              (
                s.not_contacting, s.not_listening, s.open_.in_open, s.open_.out_open, s.at_host,
                first, second, a.returned, a.change.only, b.returned, b.change.only, d.returned,
                d.change.only,
              )
              refl,
          record {
            out_streams = a.change.objects;
            in_streams = b.change.objects;
            hosts = d.change.objects;
            only = refl;
          },
        )

    pub response_returned :
        (es : List CycleEvent) (chunks : List Bytes) (made : M (Owned Client)) (b : Blocked)
        (before w : World)
        → begun E self es made before ≡ returns b w
        → IsSettled b.cycle.conn w
        → let log = main_stop ∷ read_log self si chunks w.log in
          (after : World) × (response_to E self (es ++ arrivals chunks) made before
            ≡ returns (b.cycle.owner.response ++ joined chunks) after)
          × GivenUp w log after
    response_returned es chunks made b before w e s =
        let log = main_stop ∷ read_log self si chunks w.log in
        let g = given_up b.cycle.conn w log s in
        let arrived : begun E self (es ++ arrivals chunks) made before
            ≡ and_then (begun E self es made before) (handle_all E self (arrivals chunks)) =
          made_append es (arrivals chunks) (made before) in
        (g.0, rw (arrived, e, answered chunks b w s.open_ s.in_streams.1) (rw (g.1) refl), g.2)
