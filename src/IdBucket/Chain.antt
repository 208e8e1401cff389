-- ===== src/IdBucket/Chain.antt =====
-- The free list of a bucket: the cells that it links, and how the operations change it.
use gocusp.Base.{
  ℕ, zero, suc, ◌+◌, ◌≤◌, ◌<◌, ◌≡◌, ◌∙◌, ◌≢◌, ◌⊎◌, inl, inr, List, [], ◌∷◌, some, arith, length,
  get_elem?, set, get_elem?-set_ne, ◌==◌, ==_iff, Bool-cases,
}
use gocusp.Ml.{ℤ, pos, minus_one}
use gocusp.IdBucket.{Cell, free_cell, full_cell, Bucket}

abbrev pub NotIn : ℕ → List ℕ → Type 0
NotIn i [] = Unit {0}
NotIn i (j ∷ js) = (i ≢ j) × NotIn i js

abbrev pub In : ℕ → List ℕ → Type 0
In i [] = ⊥
In i (j ∷ js) = (i ≡ j) ⊎ In i js

pub not-In-of-NotIn : (i : ℕ) (js : List ℕ) → NotIn i js → In i js → ⊥
not-In-of-NotIn i [] h m = m
not-In-of-NotIn i (j ∷ js) h (inl e) = h.0 e
not-In-of-NotIn i (j ∷ js) h (inr m) = not-In-of-NotIn i js h.1 m

-- From the index `f` the free cells of `t` link exactly the indices of the list, each once.
pub data Linked {ℓ} {A : Type ℓ} (t : List (Cell A)) : ℤ → List ℕ → Type ℓ where
  end : {f : ℤ} → f ≡ minus_one → Linked t f []
  link :
      {f : ℤ} (i : ℕ) (n : ℤ) (is : List ℕ)
      → f ≡ pos i
      → get_elem? t i ≡ some (free_cell n)
      → NotIn i is
      → Linked t n is
      → Linked t f (i ∷ is)

-- `lo + k - 1`, …, `lo`.
abbrev pub span_down : ℕ → ℕ → List ℕ
span_down lo zero = []
span_down lo (suc k) = (lo + k) ∷ span_down lo k

pub span_down-NotIn : (lo k i : ℕ) → lo + k ≤ i → NotIn i (span_down lo k)
span_down-NotIn lo zero i h = tt
span_down-NotIn lo (suc k) i h = ((omega arith), span_down-NotIn lo k i (omega arith))

pub span_down-In : (lo k i : ℕ) → lo ≤ i → i < lo + k → In i (span_down lo k)
span_down-In lo zero i h l = absurd (omega arith)
span_down-In lo (suc k) i h l = elim (Bool-cases (i == lo + k)) [
  | inl e ↦ inl ((==_iff i (lo + k)).0 e)
  | inr e ↦ inr (span_down-In lo k i h (ground arith))
]

module _ {ℓ} {A : Type ℓ} where
  -- The links are exactly the free cells.
  pub record IsValid (b : Bucket A) : Type ℓ where
    pub cells : List ℕ
    pub nonempty : 0 < length b.table
    pub linked : Linked b.table b.free cells
    pub complete : (i : ℕ) (n : ℤ) → get_elem? b.table i ≡ some (free_cell n) → In i cells

  -- A write elsewhere leaves the links alone.
  pub Linked-set :
      (t : List (Cell A)) {f : ℤ} {is : List ℕ} (j : ℕ) (c : Cell A)
      → Linked t f is
      → NotIn j is
      → Linked (set t j c) f is
  Linked-set t j c (end e) h = end e
  Linked-set t j c (link i n is e g d l) h =
      link i n is e (get_elem?-set_ne t j i c h.0 ∙ g) d (Linked-set t j c l h.1)

  -- What is linked is free.
  pub full-NotIn :
      (t : List (Cell A)) {f : ℤ} {is : List ℕ} (j : ℕ) (x : A)
      → Linked t f is
      → get_elem? t j ≡ some (full_cell x)
      → NotIn j is
  full-NotIn t j x (end e) h = tt
  full-NotIn t j x (link i n is e g d l) h = ((λ q. different q), full-NotIn t j x l h)
    where
      different : j ≡ i → ⊥
      different q = cc
