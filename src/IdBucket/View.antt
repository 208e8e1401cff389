-- ===== src/IdBucket/View.antt =====
-- A bucket seen as a finite map from handles to values.
use gocusp.Base.{
  ==_iff, Bool-cases, List, Option, ap, arith, get_elem?, get_elem?-set_ne, get_elem?-set_self,
  if◌then◌else◌, inl, inr, length, none, set, some, subst, ℕ, ◌<◌, ◌==◌, ◌≡◌,
}
use gocusp.IdBucket.{Bucket, Cell, content}

module _ {ℓ} {A : Type ℓ} where
  abbrev pub content? : Option (Cell A) → Option A
  content? none = none
  content? (some c) = content c

  -- The map that a table stands for: no value at a free cell and beyond the end.
  abbrev pub cells_at : List (Cell A) → ℕ → Option A
  cells_at t i = content? (get_elem? t i)

  abbrev pub contents : Bucket A → ℕ → Option A
  contents b i = cells_at b.table i

  pub contents-set :
      (t : List (Cell A)) (i j : ℕ) (c : Cell A)
      → i < length t
      → cells_at (set t i c) j ≡ (if i == j then content c else cells_at t j)
  contents-set t i j c h = elim (Bool-cases (i == j)) [
    | inl e ↦ rw e (
        subst (λ k. cells_at (set t i c) k ≡ content c) ((==_iff i j).0 e)
          (ap content? (get_elem?-set_self t i c h)))
    | inr e ↦ rw e (ap content? (get_elem?-set_ne t i j c (λ q. ground arith)))
  ]
