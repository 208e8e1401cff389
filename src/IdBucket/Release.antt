-- ===== src/IdBucket/Release.antt =====
-- id-bucket.sml: `free` of a handle in use, and what `free`, `replace` and `sub` raise.
use gocusp.Base.{
  ==_iff, Bool-cases, Option, arith, get_elem?, get_elem?-set_ne, get_elem?-set_self, if◌then◌else◌,
  inl, inr, length, length-set, lt_of_get_elem?, none, refl, set, some, sym, ℕ, ◌<◌, ◌==◌, ◌∙◌, ◌∷◌,
  ◌≡◌, ◌⊎◌,
}
use gocusp.IdBucket.{Bucket, Cell, free, free_cell, full_cell, replace, sub}
use gocusp.IdBucket.Chain.{In, IsValid, Linked-set, NotIn, full-NotIn, link}
use gocusp.IdBucket.View.{content?, contents, contents-set}
use gocusp.Ml.{already_free, ok, pos, raise, subscript, ℤ}

module _ {ℓ} {A : Type ℓ} where
  -- What a successful `free` leaves.
  pub record Released (b : Bucket A) (i : ℕ) : Type ℓ where
    pub after : Bucket A
    pub returns : free b (pos i) ≡ ok after
    pub removed : (j : ℕ) → contents after j ≡ (if i == j then none else contents b j)
    pub valid : IsValid after

  pub full_of_content : (o : Option (Cell A)) (x : A) → content? o ≡ some x → o ≡ some (full_cell x)
  full_of_content none x e = cc
  full_of_content (some (free_cell n)) x e = cc
  full_of_content (some (full_cell y)) x e = cc

  release_complete :
      (b : Bucket A) (i : ℕ) (v : IsValid b)
      → i < length b.table
      → (j : ℕ) (m : ℤ) → get_elem? (set b.table i (free_cell b.free)) j ≡ some (free_cell m)
      → In j (i ∷ v.cells)
  release_complete b i v h j m e = elim (Bool-cases (i == j)) [
    | inl q ↦ inl (sym ((==_iff i j).0 q))
    | inr q ↦ inr (v.complete j m (sym (get_elem?-set_ne b.table i j _ (λ p. ground arith)) ∙ e))
  ]

  -- On a bucket whose free list links exactly its free cells, each once, `free` of a handle in
  -- use succeeds: after it the handle stands for nothing and every other handle for what it
  -- stood for, and the free list again links exactly the free cells.
  pub free-Released :
      (b : Bucket A) (i : ℕ) (x : A) → IsValid b → contents b i ≡ some x → Released b i
  unfolding free
  free-Released b i x v e = record {
    after = record { free = pos i; table = set b.table i (free_cell b.free) };
    returns = rw full;
    removed = λ j. contents-set b.table i j (free_cell b.free) within;
    valid = record {
      cells = i ∷ v.cells;
      nonempty = rw (length-set b.table i (free_cell b.free)) v.nonempty;
      linked =
          link i b.free v.cells refl (get_elem?-set_self b.table i (free_cell b.free) within) apart
            (Linked-set b.table i (free_cell b.free) v.linked apart);
      complete = release_complete b i v within;
    };
  }
    where
      full : get_elem? b.table i ≡ some (full_cell x)
      full = full_of_content (get_elem? b.table i) x e

      within : i < length b.table
      within = lt_of_get_elem? b.table i (full_cell x) full

      apart : NotIn i v.cells
      apart = full-NotIn b.table i x v.linked full

  empty-cases :
      (b : Bucket A) (i : ℕ)
      → contents b i ≡ none
      → (get_elem? b.table i ≡ none) ⊎ ((n : ℤ) × (get_elem? b.table i ≡ some (free_cell n)))
  empty-cases b i e = go (get_elem? b.table i) e
    where
      go :
          (o : Option (Cell A))
          → content? o ≡ none
          → (o ≡ none) ⊎ ((n : ℤ) × (o ≡ some (free_cell n)))
      go none e = inl refl
      go (some (free_cell n)) e = inr (n, refl)
      go (some (full_cell x)) e = cc

  pub unused_free :
      (b : Bucket A) (i : ℕ)
      → contents b i ≡ none
      → (free b (pos i) ≡ raise already_free) ⊎ (free b (pos i) ≡ raise subscript)
  unfolding free
  unused_free b i e = elim (empty-cases b i e) [
    | inl none_at ↦ inr (rw none_at)
    | inr (n, free_at) ↦ inl (rw free_at)
  ]

  -- A handle that is not negative and stands for nothing is refused by `free` and `replace`:
  -- both raise AlreadyFree when it lies within the table, and both raise Subscript when it
  -- lies beyond, as `sub` then does.
  pub unused_refused :
      (b : Bucket A) (i : ℕ) (x : A)
      → contents b i ≡ none
      → ((free b (pos i) ≡ raise already_free)
          × (replace b (pos i) x ≡ raise already_free)
          × (i < length b.table))
        ⊎ ((free b (pos i) ≡ raise subscript)
            × (replace b (pos i) x ≡ raise subscript)
            × (sub b (pos i) ≡ raise subscript))
  unfolding free replace sub
  unused_refused b i x e = elim (empty-cases b i e) [
    | inl none_at ↦ inr (rw none_at, rw none_at, rw none_at)
    | inr (n, free_at) ↦
        inl (rw free_at, rw free_at, lt_of_get_elem? b.table i (free_cell n) free_at)
  ]

  pub sub_used :
      (b : Bucket A) (i : ℕ) (x : A) → contents b i ≡ some x → sub b (pos i) ≡ ok (some x)
  unfolding sub
  sub_used b i x e = rw (full_of_content (get_elem? b.table i) x e)

  pub unused_sub :
      (b : Bucket A) (i : ℕ)
      → contents b i ≡ none
      → (sub b (pos i) ≡ ok none) ⊎ (sub b (pos i) ≡ raise subscript)
  unfolding sub
  unused_sub b i e = elim (empty-cases b i e) [
    | inl none_at ↦ inr (rw none_at)
    | inr (n, free_at) ↦ inl (rw free_at)
  ]
