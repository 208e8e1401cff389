-- ===== src/Stream/ListHeap.antt =====
-- The heap of segments as a list that is sorted by the offsets: the interface Heap can be filled.
use gocusp.Base.{
  ==_iff, Bool-cases, List, Option, [], ap, arith, false, false≢true, if◌then◌else◌, inl, inr, none,
  refl, some, true, ℕ, ◌&&◌, ◌+◌, ◌==◌, ◌∷◌, ◌≡◌, ◌≢◌, ◌≤◌,
}
use gocusp.Runtime.Engine.{Bytes}
use gocusp.Stream.Heap.{Heap, Segment, bytes_eq, same}
use gocusp.Stream.OutStreamQueue.{key_lt, segment}
use gocusp.Stream.OutStreamQueue.Account.{sum_of}
use mathlib.Core.Path.{ap₂}

bytes_eq-≡ : (xs ys : Bytes) → bytes_eq xs ys ≡ true → xs ≡ ys
bytes_eq-≡ [] [] e = refl
bytes_eq-≡ [] (y ∷ ys) e = cc
bytes_eq-≡ (x ∷ xs) [] e = cc
bytes_eq-≡ (x ∷ xs) (y ∷ ys) e = elim (Bool-cases (x == y)) [
  | inl eq ↦ rw ((==_iff x y).0 eq, bytes_eq-≡ xs ys (rw eq at e)) refl
  | inr apart ↦ absurd (false≢true (rw apart at e))
]

same-≡ : (s t : Segment) → same s t ≡ 1 → s ≡ t
same-≡ s t e = elim (Bool-cases (s.key == t.key)) [
  | inr apart ↦ absurd (omega (arith, rw apart at e))
  | inl eq ↦ elim (Bool-cases (bytes_eq s.bytes t.bytes)) [
    | inr apart ↦ absurd (omega (arith, rw (eq, apart) at e))
    | inl eq' ↦ ap₂ segment ((==_iff s.key t.key).0 eq) (bytes_eq-≡ s.bytes t.bytes eq')
  ]
]

abbrev pub push_sorted : Segment → List Segment → List Segment
push_sorted s [] = s ∷ []
push_sorted s (t ∷ h) =
    let rest = push_sorted s h in if key_lt s.key t.key then s ∷ t ∷ h else t ∷ rest

abbrev pub pop_first : List Segment → ℕ → Option (Segment × List Segment)
pop_first [] k = none
pop_first (s ∷ h) k = if key_lt k s.key then none else some (s, h)

abbrev pub remove_first : Segment → List Segment → List Segment
remove_first s [] = []
remove_first s (t ∷ h) = let rest = remove_first s h in if same s t == 1 then h else t ∷ rest

abbrev pub peek_first : List Segment → Option Segment
peek_first [] = none
peek_first (s ∷ h) = some s

pub total-push_sorted :
    (g : Segment → ℕ) (s : Segment) (h : List Segment)
    → sum_of g (push_sorted s h) ≡ g s + sum_of g h
total-push_sorted g s [] = refl
total-push_sorted g s (t ∷ h) = elim (Bool-cases (key_lt s.key t.key)) [
  | inl before ↦ rw before refl
  | inr after ↦ rw after (omega (arith, total-push_sorted g s h))
]

nothing_popped :
    (p : Segment × List Segment) (o : Option (Segment × List Segment)) → o ≡ none → o ≢ some p
nothing_popped p o e e' = cc

head_popped :
    (g : Segment → ℕ) (p p' : Segment × List Segment)
    → some p ≡ some p'
    → g p.0 + sum_of g p.1 ≡ g p'.0 + sum_of g p'.1
head_popped g p p' e = let same_pair : p ≡ p' = cc in rw same_pair refl

pub total-pop_first :
    (g : Segment → ℕ) (h : List Segment) (k : ℕ) (s : Segment) (h' : List Segment)
    → pop_first h k ≡ some (s, h')
    → sum_of g h ≡ g s + sum_of g h'
total-pop_first g [] k s h' e = cc
total-pop_first g (t ∷ h) k s h' e = elim (Bool-cases (key_lt k t.key)) [
  | inl after ↦ absurd (nothing_popped (s, h') none refl (rw after at e))
  | inr before ↦ head_popped g (t, h) (s, h') (rw before at e)
]

same_bound : (s t : Segment) → same s t ≤ 1
same_bound s t = elim (Bool-cases (s.key == t.key && bytes_eq s.bytes t.bytes)) [
  | inl alike ↦ rw alike (omega arith)
  | inr apart ↦ rw apart (omega arith)
]

held_later : (a n : ℕ) → (a == 1) ≡ false → a ≤ 1 → 1 ≤ a + n → 1 ≤ n
held_later a n apart bound held = ground arith

pub total-remove_first :
    (g : Segment → ℕ) (s : Segment) (h : List Segment)
    → 1 ≤ sum_of (same s) h
    → sum_of g h ≡ g s + sum_of g (remove_first s h)
total-remove_first g s [] held = absurd (omega arith)
total-remove_first g s (t ∷ h) held = elim (Bool-cases (same s t == 1)) [
  | inl here ↦ rw here (omega (arith, ap g (same-≡ s t ((==_iff (same s t) 1).0 here))))
  | inr later ↦ rw later (
      omega (
        arith,
        total-remove_first g s h
            (held_later (same s t) (sum_of (same s) h) later (same_bound s t) held),
      ))
]

pub total-peek_first : (g : Segment → ℕ) (h : List Segment) → peek_first h ≡ none → sum_of g h ≡ 0
total-peek_first g [] e = refl
total-peek_first g (s ∷ h) e = cc

abbrev pub list_heap : Heap
list_heap = record {
  T = List Segment;
  new = [];
  peek = peek_first;
  push = push_sorted;
  pop_bounded = pop_first;
  remove = remove_first;
  total = sum_of;
  total-new = λ g. refl;
  total-push = total-push_sorted;
  total-pop = total-pop_first;
  total-remove = total-remove_first;
  total-empty = total-peek_first;
}
