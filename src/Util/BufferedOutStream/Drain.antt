-- ===== src/Util/BufferedOutStream/Drain.antt =====
-- bufferedoutstream.cpp: how the buffered stream ends after the client's shutdown.
use gocusp.Base.{
  Bool-cases, arith, false, false≢true, inl, inr, ltb, refl, sym, true, ℕ, ◌==◌, ◌∙◌, ◌∷◌, ◌≡◌,
}
use gocusp.Runtime.Engine.{Bytes, Engine, Obj, Pointer, out_stream_ready}
use gocusp.Runtime.World.{M, Run, World, returns, ◌>>=◌}
use gocusp.Util.BufferedOutStream.{BufferedOutStream, on_ready}
use gocusp.Util.BufferedOutStream.Answers.{flushed, shut_down}
use gocusp.Util.BufferedOutStream.Steps.{
  ClosedPhase, Goes, Going, activity, answered, over, waiting,
}
use gocusp.Util.BufferedOutStream.Traffic.{AcceptsInTurn, is_idle, is_shut, written}
use gocusp.Util.BufferedOutStream.Writes.{all_written}
use gocusp.Util.Memory.{Allocator}

-- A run that returns with the stream shut down and everything written.
pub record Drained (h : ℕ) (s : Obj) (total : Bytes) (run : Run BufferedOutStream) : Type 0 where
  pub buffered : BufferedOutStream
  pub after : World
  pub returned : run ≡ returns buffered after
  pub going : Going h s true total buffered after
  pub shut : is_shut s after.log ≡ true
  pub complete : written s after.log ≡ total

module _ (h : ℕ) (s : Obj) (total : Bytes) (b : BufferedOutStream) (w : World)
    (g : Going h s true total b w) where
  over_complete :
      is_shut s w.log ≡ true
      → ClosedPhase b (is_idle s w.log) (is_shut s w.log)
      → (written s w.log ≡ total) × (is_idle s w.log ≡ true)
  over_complete shut (over z i o) = (all_written g z, i)
  over_complete shut (waiting request i o) = absurd (false≢true (sym o ∙ shut))

  activity-Drained :
      (A : Allocator) (E : Engine) (self : Pointer)
      → is_shut s w.log ≡ true
      → Drained h s total (activity A E self s answered b w)
  activity-Drained A E self shut =
      let c = over_complete shut g.phase in
      record {
        buffered = b;
        after = w;
        returned = rw (c.1) refl;
        going = g;
        shut = shut;
        complete = c.0;
      }

module _ (A : Allocator) (E : Engine) (self : Pointer) (s : Obj) (h : ℕ)
    (bound : (self == 0) ≡ false) (turn : AcceptsInTurn s E) (total : Bytes) where
  shut_run-Drained :
      {run : Run BufferedOutStream}
      → (r : Goes h s true total run) × (is_shut s r.after.log ≡ true)
      → Drained h s total run
  shut_run-Drained (r, shut) = record {
    buffered = r.buffered;
    after = r.after;
    returned = r.returned;
    going = r.going;
    shut = shut;
    complete = (over_complete h s total r.buffered r.after r.going shut r.going.phase).0;
  }

  last_answer :
      (b : BufferedOutStream) (w : World)
      → Going h s true total b w
      → b.buf_size ≡ 0
      → ClosedPhase b (is_idle s w.log) (is_shut s w.log)
      → Drained h s total (activity A E self s answered b w)
  last_answer b w g z (over z' i o) = activity-Drained h s total b w g A E self o
  last_answer b w g z (waiting request i o) = rw i (
      shut_run-Drained
        (shut_down E self s h bound turn true total b w g (rw z refl) request o (over z refl refl)))

  abbrev two_answers : BufferedOutStream → M BufferedOutStream
  two_answers b = do b1 ← activity A E self s answered b; activity A E self s answered b1

  flushed_twice :
      (b : BufferedOutStream) (w : World)
      → is_idle s w.log ≡ false
      → (r : Goes h s true total
          (on_ready E self b (record w { log = out_stream_ready s ∷ w.log })))
        × (r.buffered.buf_size ≡ 0)
      → Drained h s total (two_answers b w)
  flushed_twice b w i (r, z) =
      rw (i, r.returned) (last_answer r.buffered r.after r.going z r.going.phase)

  rested_twice :
      (b : BufferedOutStream) (w : World)
      → Drained h s total (activity A E self s answered b w)
      → Drained h s total (two_answers b w)
  rested_twice b w r =
      rw (r.returned) (activity-Drained h s total r.buffered r.after r.going A E self r.shut)

  two_answers-Drained :
      (b : BufferedOutStream) (w : World)
      → Going h s true total b w
      → ClosedPhase b (is_idle s w.log) (is_shut s w.log)
      → Drained h s total (two_answers b w)
  two_answers-Drained b w g (over z i o) = rested_twice b w (last_answer b w g z g.phase)
  two_answers-Drained b w g (waiting request i o) = elim (Bool-cases (ltb 0 b.buf_size)) [
    | inl left ↦
        flushed_twice b w i
          (flushed E self s h bound turn true total b w g left o (waiting request refl o))
    | inr none_left ↦ rested_twice b w (last_answer b w g (ground arith) g.phase)
  ]

-- From any state of a buffered stream that the client's shutdown has left, with a handler
-- address that is not null and an engine that accepts writes and shutdowns in turn, two answers
-- of the library are enough: no call fails, the stream `s` is shut down, and everything that was
-- given was written to it, in order.
pub shutdown-Drained :
    (A : Allocator) (E : Engine) (self s h : ℕ)
    → (self == 0) ≡ false
    → AcceptsInTurn s E
    → (total : Bytes) (b : BufferedOutStream) (w : World) → Going h s true total b w
    → Drained h s total
        ((do b1 ← activity A E self s answered b; activity A E self s answered b1) w)
shutdown-Drained A E self s h bound turn total b w g =
    two_answers-Drained A E self s h bound turn total b w g g.phase
