-- ===== src/Stream/OutStreamQueue/Packets.antt =====
-- out-stream-queue.sml: `pull` moves what it takes from the heap of segments that wait to the heap of
-- those under way.
use gocusp.Base.{
  Bool-cases, List, Option, [], ap, append-nil, append_assoc, arith, drop, inl, inr, length, none,
  refl, some, suc, sym, take, zero, ℕ, ◌++◌, ◌+◌, ◌-◌, ◌==◌, ◌∙◌, ◌∷◌, ◌≡◌,
}
use gocusp.Ml.{pos, sub_ℤ}
use gocusp.Runtime.Engine.{Bytes}
use gocusp.Stream.Heap.{Heap, Segment}
use gocusp.Stream.OutStreamQueue.{Notice, Queue, add32, make_progress, segment}
use gocusp.Stream.OutStreamQueue.Account.{
  IsAccounted, IsAdditive, Keeps, OnSome, length-IsAdditive, make_progress-IsAccounted, on, sum_of,
  sum_of-append,
}
use gocusp.Stream.OutStreamQueue.Pull.{
  after_head, int_min, pull_contiguous, pull_from, push_all, take_segment, total_length,
}

take-append-drop : (n : ℕ) (xs : Bytes) → take n xs ++ drop n xs ≡ xs
take-append-drop zero xs = refl
take-append-drop (suc n) [] = refl
take-append-drop (suc n) (x ∷ xs) = ap (◌∷◌ x) (take-append-drop n xs)

split_measure :
    (f : Bytes → ℕ) → IsAdditive f → (n : ℕ) (xs : Bytes) → f xs ≡ f (take n xs) + f (drop n xs)
split_measure f add n xs = ap f (sym (take-append-drop n xs)) ∙ add.append (take n xs) (drop n xs)

pub total_length-eq : (ss : List Segment) → total_length ss ≡ sum_of (on length) ss
total_length-eq [] = refl
total_length-eq (s ∷ ss) = ap (◌+◌ (length s.bytes)) (total_length-eq ss)

pub sub_ℤ-add : (a n : ℕ) → sub_ℤ (pos (a + n)) n ≡ pos a
sub_ℤ-add a n = ground arith

module _ (H : Heap) where
  pub total-push_all :
      (g : Segment → ℕ) (ss : List Segment) (h : H.T)
      → H.total g (push_all H ss h) ≡ sum_of g ss + H.total g h
  total-push_all g [] h = omega arith
  total-push_all g (s ∷ ss) h = omega (arith, total-push_all g ss (H.push s h), H.total-push g s h)

  -- A segment that is taken from the heap is held.
  popped-IsAccounted :
      (q : Queue H) (out held : List Segment) (k : ℕ) (s : Segment) (h : H.T)
      → H.pop_bounded q.retransmit k ≡ some (s, h)
      → IsAccounted H q out held
      → IsAccounted H (record q { retransmit = h }) out (held ++ (s ∷ []))
  popped-IsAccounted q out held k s h e a = record {
    flying = a.flying;
    counted = a.counted;
    queued = λ open_yet.
        a.queued open_yet
        ∙ ap pos (
            omega (
              arith,
              H.total-pop (on length) q.retransmit k s h e,
              sum_of-append (on length) held (s ∷ []),
            ));
    kept = λ open_yet f add. omega (
      arith,
      a.kept open_yet f add,
      H.total-pop (on f) q.retransmit k s h e,
      sum_of-append (on f) held (s ∷ []),
    );
    in_order = a.in_order;
    no_more = a.no_more;
    dropped = λ r.
        absurd (omega (arith, H.total-pop (λ t. 1) q.retransmit k s h e, (a.dropped r).1 (λ t. 1)));
  }

  -- A part of it goes back.
  split-IsAccounted :
      (q : Queue H) (out held : List Segment) (offset k n next : ℕ) (s : Segment) (h : H.T)
      → H.pop_bounded q.retransmit k ≡ some (s, h)
      → IsAccounted H q out held
      → IsAccounted H
          (record q { retransmit = H.push (segment next (drop n s.bytes)) h })
          out
          (held ++ (segment offset (take n s.bytes) ∷ []))
  split-IsAccounted q out held offset k n next s h e a =
      let back = segment next (drop n s.bytes) in
      let taken = segment offset (take n s.bytes) in
      let measure : (f : Bytes → ℕ)
          → IsAdditive f
          → H.total (on f) (H.push back h) + sum_of (on f) (held ++ (taken ∷ []))
            ≡ H.total (on f) q.retransmit + sum_of (on f) held =
        λ f add. omega (
          arith,
          H.total-pop (on f) q.retransmit k s h e,
          H.total-push (on f) back h,
          sum_of-append (on f) held (taken ∷ []),
          split_measure f add n s.bytes,
        ) in
      record {
        flying = a.flying;
        counted = a.counted;
        queued = λ open_yet. a.queued open_yet ∙ ap pos (sym (measure length length-IsAdditive));
        kept = λ open_yet f add. omega (arith, a.kept open_yet f add, measure f add);
        in_order = a.in_order;
        no_more = a.no_more;
        dropped = λ r.
            absurd
              (omega (arith, H.total-pop (λ t. 1) q.retransmit k s h e, (a.dropped r).1 (λ t. 1)));
      }

  -- What was taken so far is held.
  abbrev pub Taken : List Segment → List Segment → List Segment × Queue H → Type 0
  Taken out held (ss, q) = IsAccounted H q out (held ++ ss)

  module _ (answer : Notice → Queue H → Queue H) (keeps : Keeps H answer) where
    after_head-Taken :
        (out held : List Segment) (s : Segment) (r : Option (List Segment × Queue H))
        → OnSome (Taken out (held ++ (s ∷ []))) r
        → OnSome (Taken out held) (after_head H answer s r)
    after_head-Taken out held s none t = tt
    after_head-Taken out held s (some (ss, q)) t = rw (append_assoc held (s ∷ []) ss) at t

    take_segment-Taken :
        (again : ℕ → ℕ → Queue H → Option (List Segment × Queue H))
        → ((room offset : ℕ) (q : Queue H) (out held : List Segment)
            → IsAccounted H q out held
            → OnSome (Taken out held) (again room offset q))
        → (room offset : ℕ) (q : Queue H) (out held : List Segment) (r : Option (Segment × H.T))
        → H.pop_bounded q.retransmit offset ≡ r
        → IsAccounted H q out held
        → OnSome (Taken out held) (take_segment H answer again room offset q r)
    take_segment-Taken again ih room offset q out held none e a = rw (append-nil held) a
    take_segment-Taken again ih room offset q out held (some (s, h)) e a =
        let q1 : Queue H = record q { retransmit = h } in
        let q2 : Queue H = make_progress H answer q1 in
        let len = int_min (length s.bytes) room in
        let a1 = popped-IsAccounted q out held offset s h e a in
        let a2 = make_progress-IsAccounted H answer keeps q1 out (held ++ (s ∷ [])) a1 in
        elim (Bool-cases (length s.bytes == len)) [
          | inr some_left ↦
              rw some_left
                (split-IsAccounted q out held offset offset len (add32 offset len) s h e a)
          | inl all_taken ↦ rw all_taken (elim (Bool-cases (room == len)) [
            | inl full ↦ rw full a2
            | inr more ↦ rw more (
                after_head-Taken out held s (again (room - len) (add32 offset len) q2)
                  (ih (room - len) (add32 offset len) q2 out (held ++ (s ∷ [])) a2))
          ])
        ]

    pull_contiguous-Taken :
        (rounds room offset : ℕ) (q : Queue H) (out held : List Segment)
        → IsAccounted H q out held
        → OnSome (Taken out held) (pull_contiguous H answer rounds room offset q)
    unfolding pull_contiguous
    pull_contiguous-Taken zero room offset q out held a = tt
    pull_contiguous-Taken (suc rounds) room offset q out held a =
        take_segment-Taken (pull_contiguous H answer rounds) (pull_contiguous-Taken rounds) room
          offset q out held (H.pop_bounded q.retransmit offset) refl a

    pub pull_from-Taken :
        (head : Option Segment) (rounds room : ℕ) (q : Queue H) (out : List Segment)
        → IsAccounted H q out []
        → OnSome (Taken out []) (pull_from H answer head rounds room q)
    pull_from-Taken none rounds room q out a = a
    pull_from-Taken (some s) rounds room q out a =
        pull_contiguous-Taken rounds room s.key q out [] a
