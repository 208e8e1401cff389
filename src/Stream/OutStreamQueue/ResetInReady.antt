-- ===== src/Stream/OutStreamQueue/ResetInReady.antt =====
-- out-stream-queue.sml: a writer that resets its stream when it is told READY, within `pull`.
use gocusp.Base.{
  List, Option, [], ap, arith, false, leb, length, le→leb, none, refl, some, suc, true, ℕ, ◌%◌, ◌+◌,
  ◌-◌, ◌==◌, ◌∷◌, ◌≡◌, ◌≤◌,
}
use gocusp.Cusp.Lifecycle.{==-refl}
use gocusp.Ml.{negate, pos, sub_ℤ}
use gocusp.Runtime.Engine.{Bytes, Pointer}
use gocusp.Stream.Heap.{Heap, Segment}
use gocusp.Stream.OutStreamQueue.{
  Notice, Queue, add32, am_connected, am_reset, do_reset, fill_with, inflight_bytes_by, is_reset,
  make_progress, reset, retransmit_bytes_by, tell, update_rts, writer_ready,
}
use gocusp.Stream.OutStreamQueue.Client.{ClientCall, client, resets}
use gocusp.Stream.OutStreamQueue.Fits.{align-le}
use gocusp.Stream.OutStreamQueue.Pull.{
  Pulled, align, data_packet, eof_in, header_length, int_min, packed, pull, pull_contiguous,
  push_all, total_length,
}

module _ (H : Heap) (depth : ℕ) (p : Pointer) (script : Notice → Queue H → List ClientCall)
    (resets_when_ready : (q : Queue H) → script (writer_ready p) q ≡ resets ∷ []) where
  abbrev answers : Notice → Queue H → Queue H
  answers = client H (suc depth) script

  -- The only segment that waits fills the packet, and data waits in the buffer.
  pub record IsFull (q : Queue H) (s : Segment) (h : H.T) (b : Bytes) (room : ℕ) : Type 0 where
    pub connected : q.state ≡ am_connected
    pub first : H.peek q.retransmit ≡ some s
    pub popped : H.pop_bounded q.retransmit s.key ≡ some (s, h)
    pub only : H.peek h ≡ none
    pub buffered : q.buffer ≡ some b
    pub waiter : q.writer ≡ some p
    pub open_yet : q.shutdowner ≡ none
    pub large : 8 ≤ room
    pub whole : room % 4 ≡ 0
    pub fits : int_min (room - header_length s.key) 4092 ≡ length s.bytes

  pub record IsNegative (len : ℕ) (r : Option (Pulled × Queue H)) : Type 0 where
    pub what : Pulled
    pub after : Queue H
    pub returned : r ≡ some (what, after)
    pub gone : is_reset after.state ≡ true
    pub counter : after.retransmit_bytes ≡ sub_ℤ (pos 0) len

  ready_resets :
      (q : Queue H)
      → q.shutdowner ≡ none
      → q.writer ≡ none
      → ((answers (writer_ready p) q).state ≡ am_reset)
        × ((answers (writer_ready p) q).retransmit_bytes ≡ pos 0)
  unfolding client reset do_reset update_rts
  ready_resets q s w = (rw (resets_when_ready q, s, w) refl, rw (resets_when_ready q, s, w) refl)

  shutdowner_kept :
      (q : Queue H) (b : Bytes)
      → q.shutdowner ≡ none
      → (update_rts H (fill_with H answers b q)).shutdowner ≡ none
  unfolding update_rts
  shutdowner_kept q b e = e

  writer_told : (q : Queue H) (b : Bytes) → (update_rts H (fill_with H answers b q)).writer ≡ none
  unfolding update_rts
  writer_told q b = refl

  whole_space :
      (room offset : ℕ)
      → room % 4 ≡ 0
      → 8 ≤ room
      → int_min (room - header_length offset) 4092 % 4 ≡ 0
  whole_space room offset whole large = ground arith

  header_fits : (room offset : ℕ) → 8 ≤ room → header_length offset ≤ room
  header_fits room offset large = ground arith

  int_min_self : (n : ℕ) → int_min n n ≡ n
  int_min_self n = ground arith

  -- The segment is taken whole, and then the writer is told.
  taken_whole :
      (q : Queue H) (s : Segment) (h : H.T) (b : Bytes) (rounds : ℕ)
      → H.pop_bounded q.retransmit s.key ≡ some (s, h)
      → H.peek h ≡ none
      → q.buffer ≡ some b
      → q.writer ≡ some p
      → pull_contiguous H answers (suc rounds) (length s.bytes) s.key q
        ≡ some (
          s ∷ [],
          answers
              (writer_ready p)
              (update_rts H (fill_with H answers b (record q { retransmit = h }))),
        )
  unfolding pull_contiguous make_progress
  taken_whole q s h b rounds popped only buffered waiter =
      rw (popped, int_min_self (length s.bytes), ==-refl (length s.bytes), only, buffered, waiter)
        refl

  packed-IsNegative :
      (offset space : ℕ) (s : Segment) (q : Queue H)
      → leb (align (total_length (s ∷ []))) space ≡ true
      → q.state ≡ am_reset
      → q.retransmit_bytes ≡ pos 0
      → IsNegative (length s.bytes) (packed H answers offset space (some (s ∷ [], q)))
  unfolding update_rts
  packed-IsNegative offset space s q in_slice gone zero_left =
      let len = total_length (s ∷ []) in
      let complete = add32 offset len == q.send_offset in
      let (eof, state) = eof_in q.state complete in
      let q1 : Queue H = update_rts H (record q {
        inflight = push_all H (s ∷ []) q.inflight;
        state = state;
        inflight_bytes = q.inflight_bytes + len;
        retransmit_bytes = sub_ℤ q.retransmit_bytes len;
      }) in
      record {
        what =
            data_packet (header_length offset + align len)
              (record { offset = offset; eof = eof; segments = s ∷ [] });
        after =
            tell H (retransmit_bytes_by (negate (pos len)))
              (tell H (inflight_bytes_by (pos len)) q1);
        returned = rw in_slice refl;
        gone = rw gone refl;
        counter = rw zero_left (ap (sub_ℤ (pos 0)) (omega arith));
      }

  -- A writer that resets its stream when it is told READY: when the only segment that waits
  -- fills the packet that `pull` makes, in a room that is a multiple of four and at least
  -- eight bytes, data waits in the buffer with this writer, and no shutdown was asked for,
  -- `pull` returns with the stream reset and with `retransmitBytes` as far below zero as the
  -- segment is long.
  pub pull_after_reset :
      (q : Queue H) (s : Segment) (h : H.T) (b : Bytes) (room rounds : ℕ)
      → IsFull q s h b room
      → IsNegative (length s.bytes) (pull H answers (suc rounds) room q)
  unfolding pull
  pull_after_reset q s h b room rounds f =
      let q1 : Queue H = record q { retransmit = h } in
      let q2 = update_rts H (fill_with H answers b q1) in
      let q3 = answers (writer_ready p) q2 in
      let r = ready_resets q2 (shutdowner_kept q1 b f.open_yet) (writer_told q1 b) in
      let taken : pull_contiguous H answers (suc rounds) (length s.bytes) s.key q
          ≡ some (s ∷ [], q3) =
        taken_whole q s h b rounds f.popped f.only f.buffered f.waiter in
      let live : is_reset q.state ≡ false = ap is_reset f.connected in
      let space = int_min (room - header_length s.key) 4092 in
      let whole : space % 4 ≡ 0 = whole_space room s.key f.whole f.large in
      let in_slice = align-le (total_length (s ∷ [])) space (omega (arith, f.fits)) whole in
      let in_slice' : leb (align (total_length (s ∷ []))) (length s.bytes) ≡ true =
        rw (f.fits) at in_slice in
      let in_room : leb (header_length s.key) room ≡ true =
        le→leb (header_length s.key) room (header_fits room s.key f.large) in
      rw (live, f.first, in_room, f.fits, taken)
        (packed-IsNegative s.key (length s.bytes) s q3 in_slice' r.0 r.1)
