-- ===== src/IdBucket/History.antt =====
-- Every bucket that a program can build from `new`: a step relation, with the invariant.
use gocusp.Base.{
  Option-cases, [], arith, get_elem?, inl, inr, none, refl, some, subst, suc, zero, ℕ, ◌∷◌, ◌≡◌,
  ◌⊎◌,
}
use gocusp.IdBucket.{Bucket, alloc, free, free_cell, new, replace}
use gocusp.IdBucket.Alloc.{Allocated, alloc-Allocated}
use gocusp.IdBucket.Chain.{In, IsValid, end, link}
use gocusp.IdBucket.Release.{free-Released, unused_free, unused_refused}
use gocusp.IdBucket.Replace.{replace-Replaced}
use gocusp.IdBucket.View.{contents}
use gocusp.Ml.{minus_one, negsuc, ok, pos, ℤ}

module _ {ℓ} {A : Type ℓ} where
  -- One successful operation.
  pub data Step (b b' : Bucket A) : Type ℓ where
    allocates : (x : A) (h : ℤ) → alloc b x ≡ ok (h, b') → Step b b'
    frees : (h : ℤ) → free b h ≡ ok b' → Step b b'
    replaces : (h : ℤ) (x : A) → replace b h x ≡ ok b' → Step b b'

  pub data Reachable : Bucket A → Type ℓ where
    fresh : Reachable new
    step : {b b' : Bucket A} → Reachable b → Step b b' → Reachable b'

  new_complete :
      (i : ℕ) (n : ℤ)
      → get_elem? (new {A = A}).table i ≡ some (free_cell n)
      → In i (3 ∷ 2 ∷ 1 ∷ 0 ∷ [])
  unfolding new
  new_complete zero n e = inr (inr (inr (inl refl)))
  new_complete (suc zero) n e = inr (inr (inl refl))
  new_complete (suc (suc zero)) n e = inr (inl refl)
  new_complete (suc (suc (suc zero))) n e = inl refl
  new_complete (suc (suc (suc (suc i)))) n e = cc

  pub new-IsValid : IsValid {A = A} new
  unfolding new
  new-IsValid = record {
    cells = 3 ∷ 2 ∷ 1 ∷ 0 ∷ [];
    nonempty = omega arith;
    linked = link 3 (pos 2) (2 ∷ 1 ∷ 0 ∷ []) refl refl (omega arith) (
        link 2 (pos 1) (1 ∷ 0 ∷ []) refl refl (omega arith) (
          link 1 (pos 0) (0 ∷ []) refl refl (omega arith)
            (link 0 minus_one [] refl refl tt (end refl))));
    complete = new_complete;
  }

  used-cases : (b : Bucket A) (i : ℕ) → (contents b i ≡ none) ⊎ ((x : A) × (contents b i ≡ some x))
  used-cases b i = Option-cases (contents b i)

  alloc-IsValid :
      (b b' : Bucket A) (x : A) (h : ℤ) → IsValid b → alloc b x ≡ ok (h, b') → IsValid b'
  alloc-IsValid b b' x h v e =
      let a = alloc-Allocated b x v in
      let same : a.after ≡ b' = cc (a.returns, e) in subst IsValid same a.valid

  free-IsValid : (b b' : Bucket A) (h : ℤ) → IsValid b → free b h ≡ ok b' → IsValid b'
  unfolding free
  free-IsValid b b' (negsuc i) v e = cc
  free-IsValid b b' (pos i) v e = elim (used-cases b i) [
    | inl unused ↦ elim (unused_free b i unused) [ inl r ↦ cc (r, e) | inr r ↦ cc (r, e) ]
    | inr (x, used) ↦
        let r = free-Released b i x v used in
        let same : r.after ≡ b' = cc (r.returns, e) in subst IsValid same r.valid
  ]

  replace-IsValid :
      (b b' : Bucket A) (h : ℤ) (y : A) → IsValid b → replace b h y ≡ ok b' → IsValid b'
  unfolding replace
  replace-IsValid b b' (negsuc i) y v e = cc
  replace-IsValid b b' (pos i) y v e = elim (used-cases b i) [
    | inl unused ↦ elim (unused_refused b i y unused) [ inl r ↦ cc (r.1, e) | inr r ↦ cc (r.1, e) ]
    | inr (x, used) ↦
        let r = replace-Replaced b i x y v used in
        let same : r.after ≡ b' = cc (r.returns, e) in subst IsValid same r.valid
  ]

  Step-IsValid : {b b' : Bucket A} → IsValid b → Step b b' → IsValid b'
  Step-IsValid {b} {b'} v (allocates x h e) = alloc-IsValid b b' x h v e
  Step-IsValid {b} {b'} v (frees h e) = free-IsValid b b' h v e
  Step-IsValid {b} {b'} v (replaces h x e) = replace-IsValid b b' h x v e

  Reachable-IsValid : {b : Bucket A} → Reachable b → IsValid b
  Reachable-IsValid fresh = new-IsValid
  Reachable-IsValid (step r s) = Step-IsValid (Reachable-IsValid r) s

  -- Whatever was allocated, freed and replaced since `new`, the free list links exactly the
  -- free cells, each once, and the next `alloc` succeeds with a handle that is not in use: the
  -- exception for an impossibly full cell is never raised.
  pub Reachable-alloc : {b : Bucket A} (x : A) → Reachable b → IsValid b × Allocated b x
  Reachable-alloc {b} x r = (Reachable-IsValid r, alloc-Allocated b x (Reachable-IsValid r))
