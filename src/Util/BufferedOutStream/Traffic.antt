-- ===== src/Util/BufferedOutStream/Traffic.antt =====
-- What the calls and callbacks so far say about one out stream of the engine.
use gocusp.Base.{Bool, [], false, if◌then◌else◌, true, ◌++◌, ◌==◌, ◌∷◌, ◌≡◌}
use gocusp.Runtime.Engine.{
  Bytes, Engine, Log, Obj, Pointer, out_stream_ready, out_stream_shutdown, out_stream_write,
}

module _ (s : Obj) where
  -- The bytes that were given to the stream, in order.
  abbrev pub written : Log → Bytes
  written [] = []
  written (out_stream_write s' bytes p ∷ l) = if s == s' then written l ++ bytes else written l
  written (c ∷ l) = written l

  -- No write waits for its callback.
  abbrev pub is_idle : Log → Bool
  is_idle [] = true
  is_idle (out_stream_write s' bytes p ∷ l) = if s == s' then false else is_idle l
  is_idle (out_stream_ready s' ∷ l) = if s == s' then true else is_idle l
  is_idle (c ∷ l) = is_idle l

  -- The stream was shut down.
  abbrev pub is_shut : Log → Bool
  is_shut [] = false
  is_shut (out_stream_shutdown s' p ∷ l) = if s == s' then true else is_shut l
  is_shut (c ∷ l) = is_shut l

  -- out-stream-queue.sml: `write` and `shutdown` raise RaceCondition while a write waits and after a
  -- shutdown, and only then.
  pub record AcceptsInTurn (E : Engine) : Type 0 where
    pub accepts_write :
        (l : Log) (bytes : Bytes) (p : Pointer)
        → is_idle l ≡ true
        → is_shut l ≡ false
        → E.raises l (out_stream_write s bytes p) ≡ false
    pub accepts_shutdown :
        (l : Log) (p : Pointer)
        → is_idle l ≡ true
        → is_shut l ≡ false
        → E.raises l (out_stream_shutdown s p) ≡ false
