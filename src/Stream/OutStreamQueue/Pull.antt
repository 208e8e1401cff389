-- ===== src/Stream/OutStreamQueue/Pull.antt =====
-- out-stream-queue.sml: `pull`, which takes data for a packet, the function that is told what became of
-- the packet, and `recv`. The slice of the packet is its room in bytes. A bound on the segments of one
-- packet stands for the recursion; `none` is the exception Subscript, or a bound that is too small.
use gocusp.Base.{
  Bool, List, Option, [], drop, false, if◌then◌else◌, leb, length, none, not, some, suc, take, true,
  zero, ℕ, ◌&&◌, ◌*◌, ◌++◌, ◌+◌, ◌-◌, ◌/◌, ◌==◌, ◌∷◌,
}
use gocusp.Ml.{add_ℤ, negate, pos, sub_ℤ}
use gocusp.Stream.Heap.{Heap, Segment}
use gocusp.Stream.OutStreamQueue.{
  Notice, Packet, Queue, State, ackd, add32, am_shutdown, became_complete, check_done, do_reset,
  in_flight, inflight_bytes_by, is_reset, make_progress, neg_inf, pos_inf, retransmit_bytes_by, rts,
  segment, tell, to_retransmit, update_rts,
}

-- What `pull` returns: the bytes of the packet that it used, with what they carry
pub data Pulled : Type 0 where
  reset_packet : ℕ → Pulled
  data_packet : ℕ → Packet → Pulled

abbrev pub int_min : ℕ → ℕ → ℕ
int_min a b = if leb a b then a else b

-- align: the next multiple of four
abbrev pub align : ℕ → ℕ
align n = (n + 3) / 4 * 4

abbrev pub total_length : List Segment → ℕ
total_length [] = 0
total_length (s ∷ ss) = length s.bytes + total_length ss

-- attachEOF and the new state
abbrev pub eof_in : State → Bool → Bool × State
eof_in (am_shutdown ackd) complete = (false, am_shutdown ackd)
eof_in (am_shutdown a) complete =
    if complete then (true, am_shutdown in_flight) else (false, am_shutdown a)
eof_in s complete = (false, s)

abbrev pub header_length : ℕ → ℕ
header_length offset = if offset == 0 then 4 else 8

-- What goes on only if a slice lies within its data.
abbrev pub within {ℓ} : {A : Type ℓ} → Bool → Option A → Option A
within true r = r
within false r = none

module _ (H : Heap) where
  abbrev pub push_all : List Segment → H.T → H.T
  push_all [] h = h
  push_all (s ∷ ss) h = push_all ss (H.push s h)

  abbrev pub remove_all : List Segment → H.T → H.T
  remove_all [] h = h
  remove_all (s ∷ ss) h = remove_all ss (H.remove s h)

  -- The offset of the packet; without segments it is a shutdown
  abbrev pub pull_offset : Option Segment → Queue H → ℕ
  pull_offset none q = q.send_offset
  pull_offset (some s) q = s.key

  module _ (answer : Notice → Queue H → Queue H) where
    abbrev pub after_head :
        Segment → Option (List Segment × Queue H) → Option (List Segment × Queue H)
    after_head s none = none
    after_head s (some (ss, q)) = some (s ∷ ss, q)

    -- One segment that was popped; `again` is the recursive call.
    abbrev pub take_segment :
        (ℕ → ℕ → Queue H → Option (List Segment × Queue H))
        → ℕ
        → ℕ
        → Queue H
        → Option (Segment × H.T)
        → Option (List Segment × Queue H)
    take_segment again room offset q none = some ([], q)
    take_segment again room offset q (some (s, h)) =
        let q1 : Queue H = record q { retransmit = h } in
        let len = int_min (length s.bytes) room in
        let next = add32 offset len in
        let q2 : Queue H = make_progress H answer q1 in
        if length s.bytes == len
        then (if room == len then some (s ∷ [], q2) else after_head s (again (room - len) next q2))
        else some (
          segment offset (take len s.bytes) ∷ [],
          record q1 { retransmit = H.push (segment next (drop len s.bytes)) h },
        )

    unfoldable pub pull_contiguous : ℕ → ℕ → ℕ → Queue H → Option (List Segment × Queue H)
    pull_contiguous zero room offset q = none
    pull_contiguous (suc rounds) room offset q =
        let again = pull_contiguous rounds in
        take_segment again room offset q (H.pop_bounded q.retransmit offset)

    abbrev pub pull_from : Option Segment → ℕ → ℕ → Queue H → Option (List Segment × Queue H)
    pull_from none rounds room q = some ([], q)
    pull_from (some s) rounds room q = pull_contiguous rounds room s.key q

    unfoldable pub pull_segments : ℕ → ℕ → Queue H → Option (List Segment × Queue H)
    pull_segments rounds room q = pull_from (H.peek q.retransmit) rounds room q

    abbrev pub packed : ℕ → ℕ → Option (List Segment × Queue H) → Option (Pulled × Queue H)
    packed offset space none = none
    packed offset space (some (segments, q)) =
        let len = total_length segments in
        let (eof, state) = eof_in q.state (add32 offset len == q.send_offset) in
        let q1 : Queue H = update_rts H (record q {
          inflight = push_all segments q.inflight;
          state = state;
          inflight_bytes = q.inflight_bytes + len;
          retransmit_bytes = sub_ℤ q.retransmit_bytes len;
        }) in
        within (leb (align len) space) (
          some (
            data_packet (header_length offset + align len)
                (record { offset = offset; eof = eof; segments = segments }),
            tell H (retransmit_bytes_by (negate (pos len)))
                (tell H (inflight_bytes_by (pos len)) q1),
          ))

    unfoldable pub pull : ℕ → ℕ → Queue H → Option (Pulled × Queue H)
    unfolding pull_segments
    pull rounds room q =
        if is_reset q.state
        then within (leb 4 room) (some (reset_packet 4, tell H (rts neg_inf) q))
        else let offset = pull_offset (H.peek q.retransmit) q in
          let space = int_min (room - header_length offset) 4092 in
          within (leb (header_length offset) room)
            (packed offset space (pull_segments rounds space q))

    -- ackd: what becomes of a packet that told of a reset
    unfoldable pub reset_acked : Bool → Queue H → Queue H
    reset_acked true q = tell H became_complete q
    reset_acked false q = tell H (rts pos_inf) q

    abbrev pub acked_state : Bool → Bool → State → State
    acked_state eof good (am_shutdown ackd) = am_shutdown ackd
    acked_state true true (am_shutdown a) = am_shutdown ackd
    acked_state true false (am_shutdown a) = am_shutdown to_retransmit
    acked_state eof good s = s

    -- The packet is no longer under way, and the stream is in the state `s`.
    abbrev pub landed : Packet → State → Queue H → Queue H
    landed p s q = record q {
      inflight = remove_all p.segments q.inflight;
      events = inflight_bytes_by (negate (pos (total_length p.segments))) ∷ q.events;
      state = s;
      inflight_bytes = q.inflight_bytes - total_length p.segments;
    }

    abbrev pub requeued : Packet → Queue H → Queue H
    requeued p q = record q {
      retransmit = push_all p.segments q.retransmit;
      retransmit_bytes = add_ℤ q.retransmit_bytes (total_length p.segments);
    }

    abbrev pub arrived : Packet → Bool → Queue H → Queue H
    arrived p good q = record q {
      bytes_sent = q.bytes_sent + (if good then total_length p.segments else 0);
      acked = if good then q.acked ++ p.segments else q.acked;
    }

    unfoldable pub ack : Packet → Bool → Queue H → Queue H
    ack p good q =
        let state = acked_state p.eof good q.state in
        let q1 = landed p state q in
        if not good && not (is_reset state)
        then update_rts H
            (tell H (retransmit_bytes_by (pos (total_length p.segments))) (requeued p q1))
        else check_done H answer (make_progress H answer (arrived p good q1))

    -- READER_BARRIER and READER_RESETS
    unfoldable pub recv_barrier : ℕ → Queue H → Queue H
    recv_barrier barrier q = make_progress H answer (record q { barrier = barrier })

    unfoldable pub recv_reset : Queue H → Queue H
    recv_reset q = tell H became_complete (do_reset H answer q)
