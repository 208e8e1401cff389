-- ===== src/Stream/OutStreamQueue/History.antt =====
-- out-stream-queue.sml: what may have happened to a queue since `new`, and where its bytes are then.
use gocusp.Base.{
  Bool, List, [], ap, arith, false, length, some, subst, true, ℕ, ◌++◌, ◌+◌, ◌∙◌, ◌≡◌,
}
use gocusp.Ml.{pos}
use gocusp.Runtime.Engine.{Bytes, Pointer}
use gocusp.Stream.Heap.{Heap, Segment}
use gocusp.Stream.OutStreamQueue.{
  Notice, Packet, Priority, Queue, became_complete, finite, is_reset, neg_inf, new_queue, pos_inf,
  reset, rts, set_priority, shutdown, write,
}
use gocusp.Stream.OutStreamQueue.Account.{
  IsAccounted, IsAdditive, Keeps, OnSome, new_queue-IsAccounted, on, sum_of, tell-IsAccounted,
  update_rts-IsAccounted, waiting,
}
use gocusp.Stream.OutStreamQueue.Acks.{ack-IsAccounted, reordered, to_front}
use gocusp.Stream.OutStreamQueue.Calls.{
  recv_barrier-IsAccounted, recv_reset-IsAccounted, reset-IsAccounted, shutdown-IsAccounted,
  write-IsAccounted,
}
use gocusp.Stream.OutStreamQueue.Client.{ClientCall, client, client-Keeps}
use gocusp.Stream.OutStreamQueue.Pull.{
  ack, data_packet, pull, recv_barrier, recv_reset, reset_acked, reset_packet,
}
use gocusp.Stream.OutStreamQueue.Sends.{pull-Sent}

module _ (H : Heap) (depth : ℕ) (script : Notice → Queue H → List ClientCall) where
  abbrev answers : Notice → Queue H → Queue H
  answers = client H depth script

  -- `out` are the segments of the packets that were pulled and of which nothing is known yet. A packet
  -- is heard of once, in any order.
  pub data ReachableQueue : Queue H → List Segment → Type 0 where
    created : ReachableQueue (new_queue H) []
    wrote :
        {q : Queue H} {out : List Segment} (q' : Queue H) (bytes : Bytes) (p : Pointer)
        → ReachableQueue q out
        → write H answers bytes p q ≡ some q'
        → ReachableQueue q' out
    shut_down_by :
        {q : Queue H} {out : List Segment} (q' : Queue H) (p : Pointer)
        → ReachableQueue q out
        → shutdown H answers p q ≡ some q'
        → ReachableQueue q' out
    was_reset :
        {q : Queue H} {out : List Segment}
        → ReachableQueue q out
        → ReachableQueue (reset H answers q) out
    prioritised :
        {q : Queue H} {out : List Segment} (q' : Queue H) (x : Priority)
        → ReachableQueue q out
        → set_priority H x q ≡ some q'
        → ReachableQueue q' out
    heard_barrier :
        {q : Queue H} {out : List Segment} (barrier : ℕ)
        → ReachableQueue q out
        → ReachableQueue (recv_barrier H answers barrier q) out
    heard_reset :
        {q : Queue H} {out : List Segment}
        → ReachableQueue q out
        → ReachableQueue (recv_reset H answers q) out
    pulled :
        {q : Queue H} {out : List Segment} (q' : Queue H) (rounds room n : ℕ) (p : Packet)
        → ReachableQueue q out
        → pull H answers rounds room q ≡ some (data_packet n p, q')
        → ReachableQueue q' (out ++ p.segments)
    pulled_reset :
        {q : Queue H} {out : List Segment} (q' : Queue H) (rounds room n : ℕ)
        → ReachableQueue q out
        → pull H answers rounds room q ≡ some (reset_packet n, q')
        → ReachableQueue q' out
    heard_of :
        {q : Queue H} {out : List Segment} (before after : List Segment) (p : Packet) (good : Bool)
        → out ≡ before ++ (p.segments ++ after)
        → ReachableQueue q out
        → ReachableQueue (ack H answers p good q) (before ++ after)
    heard_of_reset :
        {q : Queue H} {out : List Segment} (good : Bool)
        → ReachableQueue q out
        → ReachableQueue (reset_acked H answers good q) out

  prioritised-IsAccounted :
      (x : Priority) (q : Queue H) (out : List Segment)
      → IsAccounted H q out []
      → OnSome (λ q'. IsAccounted H q' out []) (set_priority H x q)
  unfolding set_priority
  prioritised-IsAccounted neg_inf q out a = tt
  prioritised-IsAccounted pos_inf q out a = tt
  prioritised-IsAccounted (finite x) q out a =
      update_rts-IsAccounted H (record q { priority = finite x }) out []
        (record {
          flying = a.flying;
          counted = a.counted;
          queued = a.queued;
          kept = a.kept;
          in_order = a.in_order;
          no_more = a.no_more;
          dropped = a.dropped;
        })

  heard_of_reset-IsAccounted :
      (good : Bool) (q : Queue H) (out : List Segment)
      → IsAccounted H q out []
      → IsAccounted H (reset_acked H answers good q) out []
  unfolding reset_acked
  heard_of_reset-IsAccounted true q out a = tell-IsAccounted H became_complete q out [] a
  heard_of_reset-IsAccounted false q out a = tell-IsAccounted H (rts pos_inf) q out [] a

  keeps : Keeps H answers
  keeps = client-Keeps H depth script

  pub ReachableQueue-IsAccounted :
      {q : Queue H} {out : List Segment} → ReachableQueue q out → IsAccounted H q out []
  ReachableQueue-IsAccounted created = new_queue-IsAccounted H
  ReachableQueue-IsAccounted (wrote {q} {out} q' bytes p r e) =
      rw e at (write-IsAccounted H answers keeps bytes p q out [] (ReachableQueue-IsAccounted r))
  ReachableQueue-IsAccounted (shut_down_by {q} {out} q' p r e) =
      rw e at (shutdown-IsAccounted H answers keeps p q out [] (ReachableQueue-IsAccounted r))
  ReachableQueue-IsAccounted (was_reset {q} {out} r) =
      reset-IsAccounted H answers keeps q out [] (ReachableQueue-IsAccounted r)
  ReachableQueue-IsAccounted (prioritised {q} {out} q' x r e) =
      rw e at (prioritised-IsAccounted x q out (ReachableQueue-IsAccounted r))
  ReachableQueue-IsAccounted (heard_barrier {q} {out} barrier r) =
      recv_barrier-IsAccounted H answers keeps barrier q out [] (ReachableQueue-IsAccounted r)
  ReachableQueue-IsAccounted (heard_reset {q} {out} r) =
      recv_reset-IsAccounted H answers keeps q out [] (ReachableQueue-IsAccounted r)
  ReachableQueue-IsAccounted (pulled {q} {out} q' rounds room n p r e) =
      rw e at (pull-Sent H answers keeps rounds room q out (ReachableQueue-IsAccounted r))
  ReachableQueue-IsAccounted (pulled_reset {q} {out} q' rounds room n r e) =
      rw e at (pull-Sent H answers keeps rounds room q out (ReachableQueue-IsAccounted r))
  ReachableQueue-IsAccounted (heard_of {q} {out} before after p good e r) =
      ack-IsAccounted H answers keeps p good q (before ++ after) (
        reordered H q (before ++ (p.segments ++ after)) (p.segments ++ (before ++ after))
          (to_front H before p.segments after)
          (subst (λ (o : List Segment). IsAccounted H q o []) e (ReachableQueue-IsAccounted r)))
  ReachableQueue-IsAccounted (heard_of_reset {q} {out} good r) =
      heard_of_reset-IsAccounted good q out (ReachableQueue-IsAccounted r)

  -- Whatever was written, shut down, prioritised, pulled, acknowledged as arrived or as lost,
  -- heard from the reader and called back since the out-stream queue was made, as long as it
  -- is not reset: `inflightBytes` is the length of the segments under way, `retransmitBytes`
  -- that of the segments in the heap of what is to be sent, and the bytes that wait in the
  -- buffer, are to be sent, are under way and have arrived make up those that `write`
  -- accepted, by any measure that adds up over the parts of the data.
  pub no_byte_lost :
      (q : Queue H) (out : List Segment) (f : Bytes → ℕ)
      → ReachableQueue q out
      → is_reset q.state ≡ false
      → IsAdditive f
      → (q.inflight_bytes ≡ sum_of (on length) out)
        × (q.retransmit_bytes ≡ pos (H.total (on length) q.retransmit))
        × (f (waiting q.buffer)
              + H.total (on f) q.retransmit
              + sum_of (on f) out
              + sum_of (on f) q.acked
            ≡ f q.given)
  no_byte_lost q out f r open_yet add =
      let a = ReachableQueue-IsAccounted r in
      (
        a.counted,
        a.queued open_yet ∙ ap pos (omega arith),
        omega (
          arith,
          a.kept open_yet f add,
          ap f (a.in_order open_yet),
          add.append q.moved (waiting q.buffer),
        ),
      )
