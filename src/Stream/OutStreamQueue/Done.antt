-- ===== src/Stream/OutStreamQueue/Done.antt =====
-- out-stream-queue.sml: the test after which the shutdowner is told of success.
use gocusp.Base.{
  List, Option, [], ap, arith, false, none, not, refl, some, sym, true, ℕ, ◌&&◌, ◌∙◌, ◌∷◌, ◌≡◌,
}
use gocusp.Runtime.Engine.{Bytes}
use gocusp.Stream.Heap.{Heap, Segment}
use gocusp.Stream.OutStreamQueue.{
  Notice, Queue, State, ackd, am_connected, am_done, am_reset, am_shutdown, in_flight, is_acked,
  is_reset, is_shut, is_some, to_retransmit,
}
use gocusp.Stream.OutStreamQueue.Account.{IsAdditive, on, sum_of, waiting}
use gocusp.Stream.OutStreamQueue.Client.{ClientCall, client}
use gocusp.Stream.OutStreamQueue.History.{ReachableQueue, ReachableQueue-IsAccounted}

nil_of_sum : (ss : List Segment) → sum_of (λ s. 1) ss ≡ 0 → ss ≡ []
nil_of_sum [] e = refl
nil_of_sum (s ∷ ss) e = absurd (omega arith)

-- What `amDone` tests.
done_parts :
    (s : State) (i r : Option Segment)
    → (is_acked s && not (is_some i) && not (is_some r)) ≡ true
    → (is_shut s ≡ true) × (is_reset s ≡ false) × (i ≡ none) × (r ≡ none)
done_parts (am_shutdown ackd) none none e = (refl, refl, refl, refl)
done_parts (am_shutdown ackd) none (some r) e = cc
done_parts (am_shutdown ackd) (some i) r e = cc
done_parts (am_shutdown to_retransmit) i r e = cc
done_parts (am_shutdown in_flight) i r e = cc
done_parts am_connected i r e = cc
done_parts am_reset i r e = cc

module _ (H : Heap) (depth : ℕ) (script : Notice → Queue H → List ClientCall) where
  -- When `amDone` holds of an out-stream queue, whatever has happened to it since it was made,
  -- no segment is under way, nothing waits in the buffer, and the segments that have arrived
  -- make up all that `write` accepted, by any measure that adds up over the parts of the data.
  pub done-Acked :
      (q : Queue H) (out : List Segment) (f : Bytes → ℕ)
      → ReachableQueue H depth script q out
      → am_done H (client H depth script) q ≡ true
      → IsAdditive f
      → (out ≡ []) × (q.buffer ≡ none) × (sum_of (on f) q.acked ≡ f q.given)
  unfolding am_done
  done-Acked q out f r finished add =
      let a = ReachableQueue-IsAccounted H depth script r in
      let parts = done_parts q.state (H.peek q.inflight) (H.peek q.retransmit) finished in
      let nothing_flies : (g : Segment → ℕ) → sum_of g out ≡ 0 =
        λ g. sym (a.flying g) ∙ H.total-empty g q.inflight parts.2 in
      let empty_buffer = a.no_more parts.0 in
      (
        nil_of_sum out (nothing_flies (λ s. 1)),
        empty_buffer,
        omega (
          arith,
          a.kept parts.1 f add,
          H.total-empty (on f) q.retransmit parts.3,
          nothing_flies (on f),
          ap f (a.in_order parts.1),
          add.append q.moved (waiting q.buffer),
          ap (λ b. f (waiting b)) empty_buffer,
          add.nil,
        ),
      )
