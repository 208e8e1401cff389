-- ===== src/Util/BufferedOutStream/Delivery.antt =====
-- bufferedoutstream.cpp: runs of the client's calls and the library's answers.
use gocusp.Base.{
  Bool, Bool-cases, List, [], ap, append-nil, append_assoc, arith, false, false≢true, inl, inr,
  length, length-append, ltb, refl, some, sym, true, ℕ, ◌++◌, ◌<◌, ◌==◌, ◌^◌, ◌∷◌, ◌≡◌, ◌≤◌,
}
use gocusp.Cusp.Lifecycle.{object_at}
use gocusp.Cusp.Ref.{ref}
use gocusp.Ml.{pos}
use gocusp.Runtime.Engine.{Bytes, Engine, Obj, Pointer, out_stream_ready}
use gocusp.Runtime.Handles.{out_stream}
use gocusp.Runtime.World.{World}
use gocusp.Util.BufferedOutStream.{BufferedOutStream, buf_min_alloc, on_ready, unused}
use gocusp.Util.BufferedOutStream.Answers.{flushed, rested, shut_down}
use gocusp.Util.BufferedOutStream.Steps.{
  Activity, AllAllowed, Allowed, ClosedPhase, Goes, Going, OpenPhase, activity, answered,
  closing_after, closing_at_end, finished, given, over, payload, payloads, resting, run_activities,
  waiting, writing,
}
use gocusp.Util.BufferedOutStream.Traffic.{AcceptsInTurn, is_idle, is_shut, written}
use gocusp.Util.BufferedOutStream.Writes.{finished_later, finished_now, given_directly, given_later}
use gocusp.Util.Memory.{Allocator}

module _ (A : Allocator) (E : Engine) (self : Pointer) (s : Obj) (h limit : ℕ)
    (bound : (self == 0) ≡ false) (turn : AcceptsInTurn s E) (small : limit < 2 ^ 64)
    (room : (n : ℕ) → n ≤ limit → A.has_room n ≡ true) (least : buf_min_alloc ≤ limit) where
  answered_open :
      (total : Bytes) (b : BufferedOutStream) (w : World)
      → Going h s false total b w
      → is_idle s w.log ≡ false
      → OpenPhase b false (is_shut s w.log)
      → Goes h s false total (on_ready E self b (record w { log = out_stream_ready s ∷ w.log }))
  answered_open total b w g busy (resting r z q i o) = absurd (false≢true i)
  answered_open total b w g busy (writing r q i o) = elim (Bool-cases (ltb 0 b.buf_size)) [
    | inl left ↦ (flushed E self s h bound turn false total b w g left o (writing r q refl o)).0
    | inr none_left ↦
        rested E self s h bound turn false total b w g none_left (rw q refl)
          (resting refl (ground arith) q refl o)
  ]

  answered_closing :
      (total : Bytes) (b : BufferedOutStream) (w : World)
      → Going h s true total b w
      → is_idle s w.log ≡ false
      → ClosedPhase b false (is_shut s w.log)
      → Goes h s true total (on_ready E self b (record w { log = out_stream_ready s ∷ w.log }))
  answered_closing total b w g busy (over z i o) = absurd (false≢true i)
  answered_closing total b w g busy (waiting request i o) = elim (Bool-cases (ltb 0 b.buf_size)) [
    | inl left ↦ (flushed E self s h bound turn true total b w g left o (waiting request refl o)).0
    | inr none_left ↦
        (shut_down E self s h bound turn true total b w g none_left request o
          (over (ground arith) refl refl)).0
  ]

  answered_phase :
      (closing : Bool) (total : Bytes) (b : BufferedOutStream) (w : World)
      → Going h s closing total b w
      → is_idle s w.log ≡ false
      → Goes h s closing total (on_ready E self b (record w { log = out_stream_ready s ∷ w.log }))
  answered_phase false total b w g busy = answered_open total b w g busy (rw busy at g.phase)
  answered_phase true total b w g busy = answered_closing total b w g busy (rw busy at g.phase)

  answered-Goes :
      (closing : Bool) (total : Bytes) (b : BufferedOutStream) (w : World)
      → Going h s closing total b w
      → Goes h s closing total (activity A E self s answered b w)
  answered-Goes closing total b w g = elim (Bool-cases (is_idle s w.log)) [
    | inl idle ↦ record { buffered = b; after = w; returned = rw idle refl; going = g }
    | inr busy ↦ rw busy (answered_phase closing total b w g busy)
  ]

  given-Goes :
      (total bytes : Bytes) (b : BufferedOutStream) (w : World)
      → Going h s false total b w
      → OpenPhase b (is_idle s w.log) (is_shut s w.log)
      → length (total ++ bytes) ≤ limit
      → Goes h s false (total ++ bytes) (activity A E self s (given bytes) b w)
  given-Goes total bytes b w g (resting r z q i o) fits =
      given_directly A E self s h limit bound turn small room least total b w bytes g r z q i o
  given-Goes total bytes b w g (writing r q i o) fits =
      given_later A E self s h limit bound turn small room least total b w bytes g r q i o fits

  finished-Goes :
      (total : Bytes) (p : Pointer) (b : BufferedOutStream) (w : World)
      → Going h s false total b w
      → OpenPhase b (is_idle s w.log) (is_shut s w.log)
      → (p == 0) ≡ false
      → Goes h s true total (activity A E self s (finished p) b w)
  finished-Goes total p b w g (resting r z q i o) bound' =
      finished_now A E self s h limit bound turn small room least total b w p bound' g r z i o
  finished-Goes total p b w g (writing r q i o) bound' =
      finished_later A E self s h limit bound turn small room least total b w p bound' g r i o

  activity-Goes :
      (closing : Bool) (total : Bytes) (e : Activity) (b : BufferedOutStream) (w : World)
      → Going h s closing total b w
      → Allowed closing e
      → length (total ++ payload e) ≤ limit
      → Goes h s (closing_after closing e) (total ++ payload e) (activity A E self s e b w)
  activity-Goes false total (given bytes) b w g a fits = given-Goes total bytes b w g g.phase fits
  activity-Goes true total (given bytes) b w g a fits = absurd (false≢true (sym a))
  activity-Goes false total (finished p) b w g a fits =
      rw (append-nil total) (finished-Goes total p b w g g.phase a.1)
  activity-Goes true total (finished p) b w g a fits = absurd (false≢true (sym a.0))
  activity-Goes closing total answered b w g a fits =
      rw (append-nil total) (answered-Goes closing total b w g)

  run_activities-Goes :
      (es : List Activity) (closing : Bool) (total : Bytes) (b : BufferedOutStream) (w : World)
      → Going h s closing total b w
      → AllAllowed closing es
      → length (total ++ payloads es) ≤ limit
      → Goes h s
          (closing_at_end closing es)
          (total ++ payloads es)
          (run_activities A E self s es b w)
  unfolding run_activities
  run_activities-Goes [] closing total b w g a fits =
      rw (append-nil total) (record { buffered = b; after = w; returned = refl; going = g })
  run_activities-Goes (e ∷ es) closing total b w g a fits =
      let same_total = append_assoc total (payload e) (payloads es) in
      let r =
        activity-Goes closing total e b w g a.0
          (omega (arith, length-append (total ++ payload e) (payloads es), ap length same_total)) in
      rw (r.returned, sym same_total)
        (run_activities-Goes es (closing_after closing e) (total ++ payload e) r.buffered r.after
          r.going a.1 (rw (same_total) fits))

-- Given a buffered stream that nothing was written to yet, on a handle `h` of the stream `s`
-- that is idle and not shut down, with a handler address that is not null, an engine that
-- accepts writes and shutdowns of `s` in turn, and an allocator with room for up to `limit`
-- bytes, where 1024 <= limit < 2 ^ 64. For any writes, answers of the library and a shutdown
-- with a handler that is not null, after which the client does nothing, such that what was
-- written to `s` before and what the client writes are together no more than `limit` bytes: no
-- call fails, no memory outside of the buffer is touched, what was written to `s` followed by
-- what is in the buffer is what was written to `s` before followed by what the client wrote, in
-- order, the buffer's allocation is at most the larger of 1024 and the length of that, and
-- before the shutdown the stream writes directly exactly when no write waits for its answer.
pub delivery :
    (A : Allocator) (E : Engine) (self s : ℕ) (h limit handler : ℕ)
    → (self == 0) ≡ false
    → AcceptsInTurn s E
    → limit < 2 ^ 64
    → ((n : ℕ) → n ≤ limit → A.has_room n ≡ true)
    → buf_min_alloc ≤ limit
    → (w : World) → object_at out_stream w h ≡ some s
    → is_idle s w.log ≡ true
    → is_shut s w.log ≡ false
    → (es : List Activity) → AllAllowed false es
    → length (written s w.log ++ payloads es) ≤ limit
    → Goes h s
        (closing_at_end false es)
        (written s w.log ++ payloads es)
        (run_activities A E self s es (unused (ref out_stream (pos h)) handler) w)
delivery A E self s h limit handler bound turn small room least w live idle open_yet es allowed
      fits =
    run_activities-Goes A E self s h limit bound turn small room least es false (written s w.log)
      (unused (ref out_stream (pos h)) handler) w
      (record {
        same_os = refl;
        live = live;
        sound = record { block_length = refl; fits = omega arith };
        delivered = append-nil (written s w.log);
        bounded = omega arith;
        phase = resting refl refl refl idle open_yet;
      })
      allowed fits
