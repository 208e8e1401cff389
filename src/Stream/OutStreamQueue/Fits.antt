-- ===== src/Stream/OutStreamQueue/Fits.antt =====
-- out-stream-queue.sml: what `pull` takes fits into the packet.
use gocusp.Base.{
  ==_iff, Bool-cases, List, Option, [], arith, false, inl, inr, leb, length, le→leb, none, some,
  suc, take, true, zero, ℕ, ◌%◌, ◌-◌, ◌==◌, ◌∷◌, ◌≡◌, ◌≤◌,
}
use gocusp.Runtime.Engine.{Bytes}
use gocusp.Stream.Heap.{Heap, Segment}
use gocusp.Stream.OutStreamQueue.{Notice, Queue, add32, is_some, make_progress}
use gocusp.Stream.OutStreamQueue.Account.{OnSome}
use gocusp.Stream.OutStreamQueue.Pull.{
  Pulled, after_head, align, data_packet, int_min, pull_contiguous, pull_from, reset_packet,
  take_segment, total_length,
}

length-take : (n : ℕ) (bytes : Bytes) → length (take n bytes) ≤ n
length-take zero bytes = omega arith
length-take (suc n) [] = omega arith
length-take (suc n) (b ∷ bytes) = omega (arith, length-take n bytes)

module _ (H : Heap) (answer : Notice → Queue H → Queue H) where
  abbrev pub InRoom : ℕ → List Segment × Queue H → Type 0
  InRoom room (ss, q) = total_length ss ≤ room

  int_min-le : (a b : ℕ) → (int_min a b ≤ a) × (int_min a b ≤ b)
  int_min-le a b = (ground arith, ground arith)

  head_taken : (n room : ℕ) → (n == int_min n room) ≡ true → n ≤ room
  head_taken n room e = ground arith

  room_filled : (n room : ℕ) → (n == int_min n room) ≡ false → int_min n room ≡ room
  room_filled n room e = ground arith

  after_head-InRoom :
      (s : Segment) (room n : ℕ) (r : Option (List Segment × Queue H))
      → (length s.bytes == n) ≡ true
      → n ≤ room
      → OnSome (InRoom (room - n)) r
      → OnSome (InRoom room) (after_head H answer s r)
  after_head-InRoom s room n none e small rest = tt
  after_head-InRoom s room n (some (ss, q)) e small rest =
      omega (arith, (==_iff (length s.bytes) n).0 e)

  take_segment-InRoom :
      (again : ℕ → ℕ → Queue H → Option (List Segment × Queue H))
      → ((room offset : ℕ) (q : Queue H) → OnSome (InRoom room) (again room offset q))
      → (room offset : ℕ) (q : Queue H) (r : Option (Segment × H.T))
      → OnSome (InRoom room) (take_segment H answer again room offset q r)
  take_segment-InRoom again ih room offset q none = omega arith
  take_segment-InRoom again ih room offset q (some (s, h)) =
      let len = int_min (length s.bytes) room in
      let q2 : Queue H = make_progress H answer (record q { retransmit = h }) in
      elim (Bool-cases (length s.bytes == len)) [
        | inr some_left ↦
            rw some_left
              (omega (arith, length-take len s.bytes, (int_min-le (length s.bytes) room).1))
        | inl all_taken ↦ rw all_taken (elim (Bool-cases (room == len)) [
          | inl full ↦ rw full (omega (arith, head_taken (length s.bytes) room all_taken))
          | inr more ↦ rw more (
              after_head-InRoom s room len (again (room - len) (add32 offset len) q2) all_taken
                ((int_min-le (length s.bytes) room).1) (ih (room - len) (add32 offset len) q2))
        ])
      ]

  pull_contiguous-InRoom :
      (rounds room offset : ℕ) (q : Queue H)
      → OnSome (InRoom room) (pull_contiguous H answer rounds room offset q)
  unfolding pull_contiguous
  pull_contiguous-InRoom zero room offset q = tt
  pull_contiguous-InRoom (suc rounds) room offset q =
      take_segment-InRoom (pull_contiguous H answer rounds) (pull_contiguous-InRoom rounds) room
        offset q (H.pop_bounded q.retransmit offset)

  pub pull_from-InRoom :
      (head : Option Segment) (rounds room : ℕ) (q : Queue H)
      → OnSome (InRoom room) (pull_from H answer head rounds room q)
  pull_from-InRoom none rounds room q = omega arith
  pull_from-InRoom (some s) rounds room q = pull_contiguous-InRoom rounds room s.key q

-- What is taken, with its padding, when the room is a number of whole words.
pub align-le : (n space : ℕ) → n ≤ space → space % 4 ≡ 0 → leb (align n) space ≡ true
align-le n space small whole = le→leb (align n) space (omega arith)

module _ (H : Heap) where
  -- A packet that lies within the room.
  abbrev pub FitsIn : ℕ → Pulled × Queue H → Type 0
  FitsIn room (reset_packet n, q) = n ≤ room
  FitsIn room (data_packet n p, q) = (n ≤ room) × (total_length p.segments ≤ 4092)

  -- A packet of which nothing is cut off.
  abbrev pub IsPulled : ℕ → Option (Pulled × Queue H) → Type 0
  IsPulled room r = (is_some r ≡ true) × OnSome (FitsIn room) r
