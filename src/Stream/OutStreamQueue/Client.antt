-- ===== src/Stream/OutStreamQueue/Client.antt =====
-- out-stream-queue.sml: a client that calls the queue back from its callbacks. A script says what it
-- calls at each notice, which may depend on the queue. Callbacks nest as deep as `depth` says, and
-- deeper ones call nothing; a call that raises RaceCondition has no effect.
use gocusp.Base.{List, Option, [], none, some, suc, zero, ℕ, ◌∷◌}
use gocusp.Runtime.Engine.{Bytes, Pointer}
use gocusp.Stream.Heap.{Heap, Segment}
use gocusp.Stream.OutStreamQueue.{Notice, Queue, reset, shutdown, write}
use gocusp.Stream.OutStreamQueue.Account.{IsAccounted, Keeps, OnSome}
use gocusp.Stream.OutStreamQueue.Calls.{reset-IsAccounted, shutdown-IsAccounted, write-IsAccounted}

pub data ClientCall : Type 0 where
  writes : Bytes → Pointer → ClientCall
  shuts : Pointer → ClientCall
  resets : ClientCall

module _ (H : Heap) where
  abbrev pub or_as_before : Queue H → Option (Queue H) → Queue H
  or_as_before q none = q
  or_as_before q (some q') = q'

  abbrev pub call : (Notice → Queue H → Queue H) → ClientCall → Queue H → Queue H
  call answer (writes bytes p) q = or_as_before q (write H answer bytes p q)
  call answer (shuts p) q = or_as_before q (shutdown H answer p q)
  call answer resets q = reset H answer q

  abbrev pub call_all : (Notice → Queue H → Queue H) → List ClientCall → Queue H → Queue H
  call_all answer [] q = q
  call_all answer (c ∷ cs) q = call_all answer cs (call answer c q)

  unfoldable pub client :
      (depth : ℕ) → (Notice → Queue H → List ClientCall) → Notice → Queue H → Queue H
  client zero script n q = q
  client (suc depth) script n q = let answer = client depth script in call_all answer (script n q) q

  or_as_before-IsAccounted :
      (q : Queue H) (r : Option (Queue H)) (out held : List Segment)
      → IsAccounted H q out held
      → OnSome (λ q'. IsAccounted H q' out held) r
      → IsAccounted H (or_as_before q r) out held
  or_as_before-IsAccounted q none out held a b = a
  or_as_before-IsAccounted q (some q') out held a b = b

  call-IsAccounted :
      (answer : Notice → Queue H → Queue H) (keeps : Keeps H answer) (c : ClientCall) (q : Queue H)
      (out held : List Segment)
      → IsAccounted H q out held
      → IsAccounted H (call answer c q) out held
  call-IsAccounted answer keeps (writes bytes p) q out held a =
      or_as_before-IsAccounted q (write H answer bytes p q) out held a
        (write-IsAccounted H answer keeps bytes p q out held a)
  call-IsAccounted answer keeps (shuts p) q out held a =
      or_as_before-IsAccounted q (shutdown H answer p q) out held a
        (shutdown-IsAccounted H answer keeps p q out held a)
  call-IsAccounted answer keeps resets q out held a = reset-IsAccounted H answer keeps q out held a

  call_all-IsAccounted :
      (answer : Notice → Queue H → Queue H) (keeps : Keeps H answer) (cs : List ClientCall)
      (q : Queue H) (out held : List Segment)
      → IsAccounted H q out held
      → IsAccounted H (call_all answer cs q) out held
  call_all-IsAccounted answer keeps [] q out held a = a
  call_all-IsAccounted answer keeps (c ∷ cs) q out held a =
      call_all-IsAccounted answer keeps cs (call answer c q) out held
        (call-IsAccounted answer keeps c q out held a)

  pub client-Keeps :
      (depth : ℕ) (script : Notice → Queue H → List ClientCall) → Keeps H (client depth script)
  unfolding client
  client-Keeps zero script n q out held a = a
  client-Keeps (suc depth) script n q out held a =
      call_all-IsAccounted (client depth script) (client-Keeps depth script) (script n q) q out held
        a
