-- ===== src/Stream/Heap.antt =====
-- util/heap/managed-heap.sig, as far as the out-stream queue uses it: the heap of segments is known by
-- these operations and laws. `total g h` adds up `g` over the records of the heap `h`; records with
-- the same key and bytes are not told apart.
use gocusp.Base.{
  Bool, Option, [], false, if◌then◌else◌, none, some, true, ℕ, ◌&&◌, ◌+◌, ◌==◌, ◌∷◌, ◌≡◌, ◌≤◌,
}
use gocusp.Runtime.Engine.{Bytes}

-- A record of the heap: bytes with the offset of the first of them, a 32-bit word.
pub record Segment : Type 0 where
  pub key : ℕ
  pub bytes : Bytes

abbrev pub bytes_eq : Bytes → Bytes → Bool
bytes_eq [] [] = true
bytes_eq (x ∷ xs) (y ∷ ys) = x == y && bytes_eq xs ys
bytes_eq _ _ = false

abbrev pub same : Segment → Segment → ℕ
same s t = if s.key == t.key && bytes_eq s.bytes t.bytes then 1 else 0

pub record Heap : Type 1 where
  pub T : Type 0
  pub new : T
  pub peek : T → Option Segment
  pub push : Segment → T → T
  -- The first record, if its key is not after the bound
  pub pop_bounded : T → ℕ → Option (Segment × T)
  pub remove : Segment → T → T
  pub total : (Segment → ℕ) → T → ℕ
  pub total-new : (g : Segment → ℕ) → total g new ≡ 0
  pub total-push : (g : Segment → ℕ) (s : Segment) (h : T) → total g (push s h) ≡ g s + total g h
  pub total-pop :
      (g : Segment → ℕ) (h : T) (k : ℕ) (s : Segment) (h' : T)
      → pop_bounded h k ≡ some (s, h')
      → total g h ≡ g s + total g h'
  pub total-remove :
      (g : Segment → ℕ) (s : Segment) (h : T)
      → 1 ≤ total (same s) h
      → total g h ≡ g s + total g (remove s h)
  pub total-empty : (g : Segment → ℕ) (h : T) → peek h ≡ none → total g h ≡ 0
