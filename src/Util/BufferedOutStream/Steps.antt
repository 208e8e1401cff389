-- ===== src/Util/BufferedOutStream/Steps.antt =====
-- What the client and the library do to a buffered stream, one activity at a time.
use gocusp.Util.BufferedOutStream
use Prim.Native.Nat.{max}
use gocusp.Base.{
  Bool, List, [], false, if◌then◌else◌, length, some, true, ℕ, ◌++◌, ◌==◌, ◌∷◌, ◌≡◌, ◌≤◌,
}
use gocusp.Cusp.Lifecycle.{object_at}
use gocusp.Cusp.Ref.{ref}
use gocusp.Ml.{pos}
use gocusp.Runtime.Engine.{Bytes, Engine, Obj, Pointer, out_stream_ready}
use gocusp.Runtime.Handles.{out_stream}
use gocusp.Runtime.World.{M, Run, World, pure, returns, ◌>>=◌}
use gocusp.Util.BufferedOutStream.{BufferedOutStream, buf_min_alloc, on_ready}
use gocusp.Util.BufferedOutStream.Append.{IsSound, unsent}
use gocusp.Util.BufferedOutStream.Traffic.{is_idle, is_shut, written}
use gocusp.Util.Memory.{Allocator}

pub data Activity : Type 0 where
  -- The client writes.
  given : Bytes → Activity
  -- The client shuts the stream down, with a handler.
  finished : Pointer → Activity
  -- The library calls back with READY, if a write waits.
  answered : Activity

module _ (A : Allocator) (E : Engine) (self : Pointer) (s : Obj) where
  abbrev pub activity : Activity → BufferedOutStream → M BufferedOutStream
  activity (given bytes) b w = BufferedOutStream.write A E self bytes b w
  activity (finished p) b w = BufferedOutStream.shutdown E self p b w
  activity answered b w =
      if is_idle s w.log
      then returns b w
      else on_ready E self b (record w { log = out_stream_ready s ∷ w.log })

  unfoldable pub run_activities : List Activity → BufferedOutStream → M BufferedOutStream
  run_activities [] b = pure b
  run_activities (e ∷ es) b = do b1 ← activity e b; run_activities es b1

abbrev pub payload : Activity → Bytes
payload (given bytes) = bytes
payload _ = []

abbrev pub payloads : List Activity → Bytes
payloads [] = []
payloads (e ∷ es) = payload e ++ payloads es

-- The client does nothing after `shutdown`, and gives it a handler that is not null.
abbrev pub Allowed : Bool → Activity → Type 0
Allowed closing (given bytes) = closing ≡ false
Allowed closing (finished p) = (closing ≡ false) × ((p == 0) ≡ false)
Allowed closing answered = Unit {0}

abbrev pub closing_after : Bool → Activity → Bool
closing_after closing (finished p) = true
closing_after closing _ = closing

abbrev pub AllAllowed : Bool → List Activity → Type 0
AllAllowed closing [] = Unit {0}
AllAllowed closing (e ∷ es) = Allowed closing e × AllAllowed (closing_after closing e) es

abbrev pub closing_at_end : Bool → List Activity → Bool
closing_at_end closing [] = closing
closing_at_end closing (e ∷ es) = closing_at_end (closing_after closing e) es

-- Before the client shuts the stream down.
pub data OpenPhase (b : BufferedOutStream) (idle shut : Bool) : Type 0 where
  resting :
      b.ready ≡ true
      → b.buf_size ≡ 0
      → b.shutdown_request ≡ 0
      → idle ≡ true
      → shut ≡ false
      → OpenPhase b idle shut
  writing :
      b.ready ≡ false → b.shutdown_request ≡ 0 → idle ≡ false → shut ≡ false → OpenPhase b idle shut

-- Afterwards.
pub data ClosedPhase (b : BufferedOutStream) (idle shut : Bool) : Type 0 where
  waiting :
      (b.shutdown_request == 0) ≡ false → idle ≡ false → shut ≡ false → ClosedPhase b idle shut
  over : b.buf_size ≡ 0 → idle ≡ true → shut ≡ true → ClosedPhase b idle shut

abbrev pub Phase : Bool → BufferedOutStream → Bool → Bool → Type 0
Phase false = OpenPhase
Phase true = ClosedPhase

-- The buffered stream writes to the stream `s` by its handle `h`; with what was written and what
-- the buffer holds, `total` was given so far.
pub record Going (h : ℕ) (s : Obj) (closing : Bool) (total : Bytes) (b : BufferedOutStream)
    (w : World) : Type 0 where
  pub same_os : b.os ≡ ref out_stream (pos h)
  pub live : object_at out_stream w h ≡ some s
  pub sound : IsSound b
  pub delivered : written s w.log ++ unsent b ≡ total
  pub bounded : b.buf_alloc ≤ max buf_min_alloc (length total)
  pub phase : Phase closing b (is_idle s w.log) (is_shut s w.log)

-- A run that returns, in a state as above.
pub record Goes (h : ℕ) (s : Obj) (closing : Bool) (total : Bytes) (run : Run BufferedOutStream)
    : Type 0 where
  pub buffered : BufferedOutStream
  pub after : World
  pub returned : run ≡ returns buffered after
  pub going : Going h s closing total buffered after
