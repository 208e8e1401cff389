-- ===== src/Stream/OutStreamQueue/Rounds.antt =====
-- out-stream-queue.sml: the recursion of `pullContiguousSegments` ends. Each segment that it takes is
-- empty or fills some of the room.
use gocusp.Base.{
  Bool, Bool-cases, List, Option, ap, arith, false, false≢true, if◌then◌else◌, inl, inr, leb,
  leb→le, length, le→leb, none, refl, some, suc, true, zero, ℕ, ◌%◌, ◌+◌, ◌-◌, ◌<◌, ◌==◌, ◌≡◌, ◌≤◌,
}
use gocusp.Cusp.Lifecycle.Clear.{holds}
use gocusp.Runtime.Engine.{Bytes, Pointer}
use gocusp.Stream.Heap.{Heap, Segment}
use gocusp.Stream.OutStreamQueue.{
  Notice, Queue, add32, call_writer, fill_with, is_reset, is_some, make_progress, progress, segment,
  update_rts, writer_ready,
}
use gocusp.Stream.OutStreamQueue.Account.{OnSome}
use gocusp.Stream.OutStreamQueue.Fits.{InRoom, IsPulled, align-le, pull_from-InRoom}
use gocusp.Stream.OutStreamQueue.Pull.{
  Pulled, after_head, align, header_length, int_min, packed, pull, pull_contiguous, pull_from,
  pull_offset, pull_segments, take_segment, total_length, within,
}

abbrev pub empty_one : Segment → ℕ
empty_one s = if length s.bytes == 0 then 1 else 0

abbrev pub empty_buffer : Option Bytes → ℕ
empty_buffer none = 0
empty_buffer (some b) = if length b == 0 then 1 else 0

module _ (H : Heap) where
  -- How many empty segments there are to send.
  abbrev pub empties : Queue H → ℕ
  empties q = H.total empty_one q.retransmit + empty_buffer q.buffer

  -- The client gives no empty data in its callbacks.
  abbrev pub GivesNoEmpty : (Notice → Queue H → Queue H) → Type 0
  GivesNoEmpty answer = (n : Notice) (q : Queue H) → empties (answer n q) ≤ empties q

  module _ (answer : Notice → Queue H → Queue H) (gives : GivesNoEmpty answer) where
    pub call_writer-empties :
        (n : Pointer → Notice) (w : Option Pointer) (q : Queue H)
        → empties (call_writer H answer n w q) ≤ empties q
    call_writer-empties n none q = omega arith
    call_writer-empties n (some p) q = gives (n p) q

    progress-empties :
        (b : Option Bytes) (q : Queue H)
        → q.buffer ≡ b
        → empties (progress H answer b q) ≤ empties q
    unfolding update_rts
    progress-empties none q e = omega arith
    progress-empties (some buffer) q e =
        let q1 = fill_with H answer buffer q in
        omega (
          arith,
          call_writer-empties writer_ready q.writer (update_rts H q1),
          H.total-push empty_one (segment q.send_offset buffer) q.retransmit,
          ap empty_buffer e,
        )

    pub make_progress-empties : (q : Queue H) → empties (make_progress H answer q) ≤ empties q
    unfolding make_progress update_rts
    make_progress-empties q = elim (Bool-cases (is_some (H.peek q.retransmit))) [
      | inl waits ↦ rw waits (omega arith)
      | inr nothing ↦ rw nothing (progress-empties q.buffer q refl)
    ]

    after_head-is_some :
        (s : Segment) (r : Option (List Segment × Queue H))
        → is_some r ≡ true
        → is_some (after_head H answer s r) ≡ true
    after_head-is_some s none e = e
    after_head-is_some s (some (ss, q)) e = refl

    smaller :
        (n room rounds before after : ℕ)
        → (n == int_min n room) ≡ true
        → (room == int_min n room) ≡ false
        → room + before < suc rounds
        → (if n == 0 then 1 else 0) + after ≤ before
        → room - int_min n room + after < rounds
    smaller n room rounds before after full more small less = ground arith

    take_segment_total :
        (again : ℕ → ℕ → Queue H → Option (List Segment × Queue H)) (rounds : ℕ)
        → ((room offset : ℕ) (q : Queue H)
            → room + empties q < rounds
            → is_some (again room offset q) ≡ true)
        → (room offset : ℕ) (q : Queue H) (r : Option (Segment × H.T))
        → H.pop_bounded q.retransmit offset ≡ r
        → room + empties q < suc rounds
        → is_some (take_segment H answer again room offset q r) ≡ true
    take_segment_total again rounds ih room offset q none e small = refl
    take_segment_total again rounds ih room offset q (some (s, h)) e small =
        let q1 : Queue H = record q { retransmit = h } in
        let q2 : Queue H = make_progress H answer q1 in
        let len = int_min (length s.bytes) room in
        elim (Bool-cases (length s.bytes == len)) [
          | inr some_left ↦ rw some_left refl
          | inl all_taken ↦ rw all_taken (elim (Bool-cases (room == len)) [
            | inl full ↦ rw full refl
            | inr more ↦ rw more (
                after_head-is_some s (again (room - len) (add32 offset len) q2) (
                  ih (room - len) (add32 offset len) q2 (
                    smaller (length s.bytes) room rounds (empties q) (empties q2) all_taken more
                      small
                      (omega (
                        arith,
                        make_progress-empties q1,
                        H.total-pop empty_one q.retransmit offset s h e,
                      )))))
          ])
        ]

    pull_contiguous_total :
        (rounds room offset : ℕ) (q : Queue H)
        → room + empties q < rounds
        → is_some (pull_contiguous H answer rounds room offset q) ≡ true
    unfolding pull_contiguous
    pull_contiguous_total zero room offset q small = absurd (omega arith)
    pull_contiguous_total (suc rounds) room offset q small =
        take_segment_total (pull_contiguous H answer rounds) rounds (pull_contiguous_total rounds)
          room offset q (H.pop_bounded q.retransmit offset) refl small

    pull_from_total :
        (head : Option Segment) (rounds room : ℕ) (q : Queue H)
        → room + empties q < rounds
        → is_some (pull_from H answer head rounds room q) ≡ true
    pull_from_total none rounds room q small = refl
    pull_from_total (some s) rounds room q small = pull_contiguous_total rounds room s.key q small

    within-IsPulled :
        (b : Bool) (room : ℕ) (r : Option (Pulled × Queue H))
        → b ≡ true
        → IsPulled H room r
        → IsPulled H room (within b r)
    within-IsPulled b room r e i = rw e i

    packed-IsPulled :
        (offset space room : ℕ) (r : Option (List Segment × Queue H))
        → is_some r ≡ true
        → OnSome (InRoom H answer space) r
        → space % 4 ≡ 0
        → header_length offset + space ≤ room
        → space ≤ 4092
        → IsPulled H room (packed H answer offset space r)
    packed-IsPulled offset space room none there small whole holds short = absurd (false≢true there)
    packed-IsPulled offset space room (some (ss, q)) there small whole holds short =
        let fits = align-le (total_length ss) space small whole in
        let le = leb→le (align (total_length ss)) space fits in
        rw fits (refl, (omega (arith, le), omega arith))

    pub pull_total :
        (rounds room : ℕ) (q : Queue H)
        → 8 ≤ room
        → room % 4 ≡ 0
        → room + empties q < rounds
        → IsPulled H room (pull H answer rounds room q)
    unfolding pull pull_segments
    pull_total rounds room q large whole enough =
        let head = H.peek q.retransmit in
        let offset = pull_offset H head q in
        let header = header_length offset in
        let space = int_min (room - header) 4092 in
        elim (Bool-cases (is_reset q.state)) [
          | inl dead ↦ rw (dead, le→leb 4 room (omega arith)) (refl, omega arith)
          | inr live ↦ rw live (
              within-IsPulled (leb header room) room
                (packed H answer offset space (pull_segments H answer rounds space q))
                (le→leb header room (ground arith))
                (packed-IsPulled offset space room (pull_segments H answer rounds space q)
                  (pull_from_total head rounds space q (ground arith))
                  (pull_from-InRoom H answer head rounds space q) (ground arith) (ground arith)
                  (ground arith)))
        ]
