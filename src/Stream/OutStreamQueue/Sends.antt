-- ===== src/Stream/OutStreamQueue/Sends.antt =====
-- out-stream-queue.sml: `pull` moves what it takes to the heap of the segments that are under way.
use gocusp.Base.{
  Bool, Bool-cases, List, Option, [], ap, arith, false, inl, inr, leb, length, none, refl, some,
  sym, true, ℕ, ◌++◌, ◌+◌, ◌-◌, ◌==◌, ◌∙◌, ◌≡◌,
}
use gocusp.Ml.{negate, pos, sub_ℤ}
use gocusp.Stream.Heap.{Heap, Segment}
use gocusp.Stream.OutStreamQueue.{
  Notice, Queue, State, ackd, add32, am_connected, am_reset, am_shutdown, in_flight,
  inflight_bytes_by, is_reset, is_shut, neg_inf, retransmit_bytes_by, rts, tell, to_retransmit,
  update_rts,
}
use gocusp.Stream.OutStreamQueue.Account.{
  IsAccounted, Keeps, OnSome, on, sum_of-append, tell-IsAccounted, update_rts-IsAccounted,
  within-OnSome,
}
use gocusp.Stream.OutStreamQueue.Packets.{
  Taken, pull_from-Taken, sub_ℤ-add, total-push_all, total_length-eq,
}
use gocusp.Stream.OutStreamQueue.Pull.{
  Pulled, align, data_packet, eof_in, header_length, int_min, packed, pull, pull_offset,
  pull_segments, push_all, reset_packet, total_length,
}

module _ (H : Heap) where
  module _ (answer : Notice → Queue H → Queue H) (keeps : Keeps H answer) where
    -- After `pull` the segments of a data packet are under way.
    abbrev pub Sent : List Segment → Pulled × Queue H → Type 0
    Sent out (reset_packet n, q) = IsAccounted H q out []
    Sent out (data_packet n p, q) = IsAccounted H q (out ++ p.segments) []

    is_reset-eof_in : (s : State) (c : Bool) → is_reset (eof_in s c).1 ≡ is_reset s
    is_reset-eof_in (am_shutdown ackd) c = refl
    is_reset-eof_in (am_shutdown to_retransmit) true = refl
    is_reset-eof_in (am_shutdown to_retransmit) false = refl
    is_reset-eof_in (am_shutdown in_flight) true = refl
    is_reset-eof_in (am_shutdown in_flight) false = refl
    is_reset-eof_in am_connected c = refl
    is_reset-eof_in am_reset c = refl

    is_shut-eof_in : (s : State) (c : Bool) → is_shut (eof_in s c).1 ≡ is_shut s
    is_shut-eof_in (am_shutdown ackd) c = refl
    is_shut-eof_in (am_shutdown to_retransmit) true = refl
    is_shut-eof_in (am_shutdown to_retransmit) false = refl
    is_shut-eof_in (am_shutdown in_flight) true = refl
    is_shut-eof_in (am_shutdown in_flight) false = refl
    is_shut-eof_in am_connected c = refl
    is_shut-eof_in am_reset c = refl

    packed-Sent :
        (offset space : ℕ) (out : List Segment) (r : Option (List Segment × Queue H))
        → OnSome (Taken H out []) r
        → OnSome (Sent out) (packed H answer offset space r)
    packed-Sent offset space out none t = tt
    packed-Sent offset space out (some (ss, q)) t =
        let len = total_length ss in
        let complete = add32 offset len == q.send_offset in
        let state = (eof_in q.state complete).1 in
        let q1 : Queue H = record q {
          inflight = push_all H ss q.inflight;
          state = state;
          inflight_bytes = q.inflight_bytes + len;
          retransmit_bytes = sub_ℤ q.retransmit_bytes len;
        } in
        let open_before : is_reset state ≡ false → is_reset q.state ≡ false =
          λ o. sym (is_reset-eof_in q.state complete) ∙ o in
        let a1 : IsAccounted H q1 (out ++ ss) [] = record {
          flying = λ g.
              omega (arith, total-push_all H g ss q.inflight, t.flying g, sum_of-append g out ss);
          counted = omega (arith, t.counted, total_length-eq ss, sum_of-append (on length) out ss);
          queued = λ o.
              rw (t.queued (open_before o), ← total_length-eq ss)
                (sub_ℤ-add (H.total (on length) q.retransmit) len ∙ ap pos (omega arith));
          kept =
              λ o f add. omega (arith, t.kept (open_before o) f add, sum_of-append (on f) out ss);
          in_order = λ o. t.in_order (open_before o);
          no_more = λ s. t.no_more (sym (is_shut-eof_in q.state complete) ∙ s);
          dropped = λ r. t.dropped (sym (is_reset-eof_in q.state complete) ∙ r);
        } in
        let q2 = tell H (inflight_bytes_by (pos len)) (update_rts H q1) in
        let a2 =
          tell-IsAccounted H (inflight_bytes_by (pos len)) (update_rts H q1) (out ++ ss) []
            (update_rts-IsAccounted H q1 (out ++ ss) [] a1) in
        within-OnSome (Sent out) (leb (align len) space)
          (some (
            data_packet (header_length offset + align len)
                (record { offset = offset; eof = (eof_in q.state complete).0; segments = ss }),
            tell H (retransmit_bytes_by (negate (pos len))) q2,
          ))
          (tell-IsAccounted H (retransmit_bytes_by (negate (pos len))) q2 (out ++ ss) [] a2)

    pub pull-Sent :
        (rounds room : ℕ) (q : Queue H) (out : List Segment)
        → IsAccounted H q out []
        → OnSome (Sent out) (pull H answer rounds room q)
    unfolding pull
    pull-Sent rounds room q out a =
        let offset = pull_offset H (H.peek q.retransmit) q in
        let space = int_min (room - header_length offset) 4092 in
        elim (Bool-cases (is_reset q.state)) [
          | inl dead ↦ rw dead (
              within-OnSome (Sent out) (leb 4 room) (some (reset_packet 4, tell H (rts neg_inf) q))
                (tell-IsAccounted H (rts neg_inf) q out [] a))
          | inr live ↦ rw live (
              within-OnSome (Sent out) (leb (header_length offset) room)
                (packed H answer offset space (pull_segments H answer rounds space q))
                (packed-Sent offset space out (pull_segments H answer rounds space q)
                  (pull_from-Taken H answer keeps (H.peek q.retransmit) rounds space q out a)))
        ]
