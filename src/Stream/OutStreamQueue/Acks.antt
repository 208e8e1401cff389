-- ===== src/Stream/OutStreamQueue/Acks.antt =====
-- out-stream-queue.sml: what the queue does when it hears what became of a packet.
use gocusp.Base.{
  Bool, Bool-cases, List, [], ap, arith, false, inl, inr, length, refl, sym, true, ℕ, ◌++◌, ◌-◌,
  ◌∙◌, ◌∷◌, ◌≡◌, ◌≤◌,
}
use gocusp.Cusp.Lifecycle.{==-refl}
use gocusp.Ml.{pos}
use gocusp.Runtime.Engine.{Bytes}
use gocusp.Stream.Heap.{Heap, Segment, bytes_eq, same}
use gocusp.Stream.OutStreamQueue.{
  Notice, Packet, Queue, State, ackd, am_connected, am_reset, am_shutdown, check_done, in_flight,
  is_reset, is_shut, make_progress, retransmit_bytes_by, tell, to_retransmit,
}
use gocusp.Stream.OutStreamQueue.Account.{
  IsAccounted, Keeps, make_progress-IsAccounted, on, sum_of, sum_of-append, tell-IsAccounted,
  update_rts-IsAccounted,
}
use gocusp.Stream.OutStreamQueue.Calls.{check_done-IsAccounted}
use gocusp.Stream.OutStreamQueue.Packets.{total-push_all, total_length-eq}
use gocusp.Stream.OutStreamQueue.Pull.{
  ack, acked_state, arrived, landed, remove_all, requeued, total_length,
}

bytes_eq_refl : (xs : Bytes) → bytes_eq xs xs ≡ true
bytes_eq_refl [] = refl
bytes_eq_refl (x ∷ xs) = rw (==-refl x) (bytes_eq_refl xs)

same_refl : (s : Segment) → same s s ≡ 1
same_refl s = rw (==-refl s.key, bytes_eq_refl s.bytes) refl

module _ (H : Heap) where
  -- The order of the segments under way does not matter.
  pub reordered :
      (q : Queue H) (out out' : List Segment)
      → ((g : Segment → ℕ) → sum_of g out ≡ sum_of g out')
      → IsAccounted H q out []
      → IsAccounted H q out' []
  reordered q out out' equal a = record {
    flying = λ g. a.flying g ∙ equal g;
    counted = a.counted ∙ equal (on length);
    queued = a.queued;
    kept = λ o f add. omega (arith, a.kept o f add, equal (on f));
    in_order = a.in_order;
    no_more = a.no_more;
    dropped = a.dropped;
  }

  pub to_front :
      (before ss after : List Segment) (g : Segment → ℕ)
      → sum_of g (before ++ (ss ++ after)) ≡ sum_of g (ss ++ (before ++ after))
  to_front before ss after g = omega (
    arith,
    sum_of-append g before (ss ++ after),
    sum_of-append g ss after,
    sum_of-append g ss (before ++ after),
    sum_of-append g before after,
  )

  total-remove_all :
      (ss rest : List Segment) (h : H.T)
      → ((g : Segment → ℕ) → H.total g h ≡ sum_of g (ss ++ rest))
      → (g : Segment → ℕ) → H.total g (remove_all H ss h) ≡ sum_of g rest
  total-remove_all [] rest h e g = e g
  total-remove_all (s ∷ ss) rest h e g =
      let there : 1 ≤ H.total (same s) h = omega (arith, e (same s), same_refl s) in
      total-remove_all ss rest (H.remove s h) (λ k. omega (arith, e k, H.total-remove k s h there))
        g

  module _ (answer : Notice → Queue H → Queue H) (keeps : Keeps H answer) where
    is_reset-acked_state :
        (eof good : Bool) (s : State) → is_reset (acked_state H answer eof good s) ≡ is_reset s
    is_reset-acked_state eof good (am_shutdown ackd) = refl
    is_reset-acked_state true true (am_shutdown to_retransmit) = refl
    is_reset-acked_state true false (am_shutdown to_retransmit) = refl
    is_reset-acked_state false good (am_shutdown to_retransmit) = refl
    is_reset-acked_state true true (am_shutdown in_flight) = refl
    is_reset-acked_state true false (am_shutdown in_flight) = refl
    is_reset-acked_state false good (am_shutdown in_flight) = refl
    is_reset-acked_state true true am_connected = refl
    is_reset-acked_state true false am_connected = refl
    is_reset-acked_state false good am_connected = refl
    is_reset-acked_state true true am_reset = refl
    is_reset-acked_state true false am_reset = refl
    is_reset-acked_state false good am_reset = refl

    is_shut-acked_state :
        (eof good : Bool) (s : State) → is_shut (acked_state H answer eof good s) ≡ is_shut s
    is_shut-acked_state eof good (am_shutdown ackd) = refl
    is_shut-acked_state true true (am_shutdown to_retransmit) = refl
    is_shut-acked_state true false (am_shutdown to_retransmit) = refl
    is_shut-acked_state false good (am_shutdown to_retransmit) = refl
    is_shut-acked_state true true (am_shutdown in_flight) = refl
    is_shut-acked_state true false (am_shutdown in_flight) = refl
    is_shut-acked_state false good (am_shutdown in_flight) = refl
    is_shut-acked_state true true am_connected = refl
    is_shut-acked_state true false am_connected = refl
    is_shut-acked_state false good am_connected = refl
    is_shut-acked_state true true am_reset = refl
    is_shut-acked_state true false am_reset = refl
    is_shut-acked_state false good am_reset = refl

    module _ (p : Packet) (q : Queue H) (rest : List Segment) (s : State)
        (same_reset : is_reset s ≡ is_reset q.state) (same_shut : is_shut s ≡ is_shut q.state)
        (a : IsAccounted H q (p.segments ++ rest) []) where
      counted_less : q.inflight_bytes - total_length p.segments ≡ sum_of (on length) rest
      counted_less =
          omega (
            arith,
            a.counted,
            total_length-eq p.segments,
            sum_of-append (on length) p.segments rest,
          )

      requeued-IsAccounted :
          is_reset s ≡ false → IsAccounted H (requeued H answer p (landed H answer p s q)) rest []
      requeued-IsAccounted live = record {
        flying = total-remove_all p.segments rest q.inflight a.flying;
        counted = counted_less;
        queued = λ o. rw (a.queued (sym same_reset ∙ o)) (
            ap pos (
              omega (
                arith,
                total-push_all H (on length) p.segments q.retransmit,
                total_length-eq p.segments,
              )));
        kept = λ o f add. omega (
          arith,
          a.kept (sym same_reset ∙ o) f add,
          total-push_all H (on f) p.segments q.retransmit,
          sum_of-append (on f) p.segments rest,
        );
        in_order = λ o. a.in_order (sym same_reset ∙ o);
        no_more = λ o. a.no_more (sym same_shut ∙ o);
        dropped = λ r. cc;
      }

      arrived-IsAccounted : IsAccounted H (arrived H answer p true (landed H answer p s q)) rest []
      arrived-IsAccounted = record {
        flying = total-remove_all p.segments rest q.inflight a.flying;
        counted = counted_less;
        queued = λ o. a.queued (sym same_reset ∙ o);
        kept = λ o f add. omega (
          arith,
          a.kept (sym same_reset ∙ o) f add,
          sum_of-append (on f) p.segments rest,
          sum_of-append (on f) q.acked p.segments,
        );
        in_order = λ o. a.in_order (sym same_reset ∙ o);
        no_more = λ o. a.no_more (sym same_shut ∙ o);
        dropped = λ r. a.dropped (sym same_reset ∙ r);
      }

      -- What a stream that is reset has lost is lost.
      forgotten-IsAccounted :
          is_reset s ≡ true
          → IsAccounted H (arrived H answer p false (landed H answer p s q)) rest []
      forgotten-IsAccounted gone = record {
        flying = total-remove_all p.segments rest q.inflight a.flying;
        counted = counted_less;
        queued = λ o. cc;
        kept = λ o. cc;
        in_order = λ o. a.in_order (sym same_reset ∙ o);
        no_more = λ o. a.no_more (sym same_shut ∙ o);
        dropped = λ r. a.dropped (sym same_reset ∙ r);
      }

    settled :
        (q : Queue H) (rest : List Segment)
        → IsAccounted H q rest []
        → IsAccounted H (check_done H answer (make_progress H answer q)) rest []
    settled q rest a =
        check_done-IsAccounted H answer keeps (make_progress H answer q) rest []
          (make_progress-IsAccounted H answer keeps q rest [] a)

    pub ack-IsAccounted :
        (p : Packet) (good : Bool) (q : Queue H) (rest : List Segment)
        → IsAccounted H q (p.segments ++ rest) []
        → IsAccounted H (ack H answer p good q) rest []
    unfolding ack
    ack-IsAccounted p true q rest a =
        let s = acked_state H answer p.eof true q.state in
        settled (arrived H answer p true (landed H answer p s q)) rest (
          arrived-IsAccounted p q rest s (is_reset-acked_state p.eof true q.state)
            (is_shut-acked_state p.eof true q.state) a)
    ack-IsAccounted p false q rest a =
        let s = acked_state H answer p.eof false q.state in
        let same_reset = is_reset-acked_state p.eof false q.state in
        let same_shut = is_shut-acked_state p.eof false q.state in
        elim (Bool-cases (is_reset s)) [
          | inl gone ↦ rw gone (
              settled (arrived H answer p false (landed H answer p s q)) rest
                (forgotten-IsAccounted p q rest s same_reset same_shut a gone))
          | inr lost ↦
              let q1 = requeued H answer p (landed H answer p s q) in
              let told = retransmit_bytes_by (pos (total_length p.segments)) in
              rw lost (
                update_rts-IsAccounted H (tell H told q1) rest [] (
                  tell-IsAccounted H told q1 rest []
                    (requeued-IsAccounted p q rest s same_reset same_shut a lost)))
        ]
