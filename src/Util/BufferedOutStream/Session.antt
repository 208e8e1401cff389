-- ===== src/Util/BufferedOutStream/Session.antt =====
-- bufferedoutstream.cpp: a buffered stream from its constructor to the end of the stream.
use gocusp.Util.BufferedOutStream
use gocusp.Base.{List, ap, false, length, refl, some, true, ℕ, ◌++◌, ◌<◌, ◌==◌, ◌^◌, ◌∙◌, ◌≡◌, ◌≤◌}
use gocusp.Cusp.Classes.{class_of}
use gocusp.Cusp.Lifecycle.{==-refl, IsValidAt, class_of-eq, object_at}
use gocusp.Cusp.Lifecycle.Copy.{Copied, copy-Copied}
use gocusp.Cusp.Ref.{Ref, handle_class, ref}
use gocusp.Ml.{pos}
use gocusp.Runtime.Engine.{Engine, Pointer}
use gocusp.Runtime.Handles.{out_stream}
use gocusp.Runtime.World.{M, World, returns, ◌>>=◌}
use gocusp.Util.BufferedOutStream.{BufferedOutStream, buf_min_alloc, unused}
use gocusp.Util.BufferedOutStream.Delivery.{delivery}
use gocusp.Util.BufferedOutStream.Drain.{Drained, shutdown-Drained}
use gocusp.Util.BufferedOutStream.Steps.{
  Activity, AllAllowed, Going, activity, answered, closing_at_end, payloads, run_activities,
}
use gocusp.Util.BufferedOutStream.Traffic.{AcceptsInTurn, is_idle, is_shut, written}
use gocusp.Util.Memory.{Allocator}

module _ (A : Allocator) (E : Engine) (self s : ℕ) where
  -- The constructor, the activities, and two more answers of the library.
  abbrev pub session : Ref out_stream → Pointer → List Activity → M BufferedOutStream
  session os handler es = do
    b ← BufferedOutStream.create os handler
    b1 ← run_activities A E self s es b
    b2 ← activity A E self s answered b1
    activity A E self s answered b2

is_valid-handle : (h : ℕ) → (class_of out_stream).is_valid (ref out_stream (pos h)) ≡ true
unfolding handle_class
is_valid-handle h = rw (class_of-eq out_stream) refl

create-unused :
    (w : World) (h handler : ℕ) {s : ℕ}
    → (handler == 0) ≡ false
    → (c : Copied out_stream w h s)
    → BufferedOutStream.create (ref out_stream (pos h)) handler w
      ≡ returns (unused (ref out_stream (pos c.handle)) handler) c.after
unfolding BufferedOutStream.create
create-unused w h handler bound c = rw (c.returned, is_valid-handle c.handle, bound) refl

-- A buffered stream that is created from an out stream whose handle is in use, for a stream `s`
-- that is idle and not shut down, with a handler and a self address that are not null, and the
-- free list of the bucket of out streams linking exactly its free cells; an engine that accepts
-- writes and shutdowns of `s` in turn, and an allocator with room for up to `limit` bytes, where
-- 1024 <= limit < 2 ^ 64. For any writes and answers of the library that include a shutdown by
-- the client, with a handler that is not null and nothing from the client after it, and no more
-- than `limit` bytes with those that were written to `s` before: two more answers complete the
-- stream. No call fails, what the client wrote was written to `s` after what was written to it
-- before, all of it and in order, and `s` is shut down.
pub session-Drained :
    (A : Allocator) (E : Engine) (self s h limit handler : ℕ)
    → (self == 0) ≡ false
    → (handler == 0) ≡ false
    → AcceptsInTurn s E
    → limit < 2 ^ 64
    → ((n : ℕ) → n ≤ limit → A.has_room n ≡ true)
    → buf_min_alloc ≤ limit
    → (w : World) → IsValidAt out_stream w
    → object_at out_stream w h ≡ some s
    → is_idle s w.log ≡ true
    → is_shut s w.log ≡ false
    → (es : List Activity) → AllAllowed false es
    → closing_at_end false es ≡ true
    → length (written s w.log ++ payloads es) ≤ limit
    → (own : ℕ) × Drained own s
        (written s w.log ++ payloads es)
        (session A E self s (ref out_stream (pos h)) handler es w)
session-Drained A E self s h limit handler bound bound' turn small room least w v live idle open_yet
      es allowed closes fits =
    let c = copy-Copied out_stream w h s v live in
    let same_log : c.after.log ≡ w.log = ap (λ (u : World). u.log) c.change.only in
    let here : object_at out_stream c.after c.handle ≡ some s =
      c.change.objects c.handle ∙ rw (==-refl c.handle) refl in
    let g =
      delivery A E self s c.handle limit handler bound turn small room least c.after here
        (rw same_log idle) (rw same_log open_yet) es allowed (rw same_log fits) in
    let closed : Going c.handle s true (written s w.log ++ payloads es) g.buffered g.after =
      rw (closes, same_log) at g.going in
    let d =
      shutdown-Drained A E self s c.handle bound turn (written s w.log ++ payloads es) g.buffered
        g.after closed in
    (
      c.handle,
      record {
        buffered = d.buffered;
        after = d.after;
        returned = rw (create-unused w h handler bound' c, g.returned) d.returned;
        going = d.going;
        shut = d.shut;
        complete = d.complete;
      },
    )
