-- ===== src/IdBucket/Alloc.antt =====
-- id-bucket.sml: `alloc` on a bucket whose free list links its free cells.
use gocusp.Base.{
  ==_iff, Bool-cases, List, ap, arith, get_elem?, get_elem?-set_ne, get_elem?-set_self,
  if◌then◌else◌, inl, inr, length, length-set, lt_of_get_elem?, none, refl, set, some, subst, sym,
  ℕ, ◌<◌, ◌==◌, ◌∙◌, ◌≡◌, ◌⊎◌,
}
use gocusp.IdBucket.{Bucket, Cell, alloc, free_cell, full_cell, make_room}
use gocusp.IdBucket.Chain.{In, IsValid, Linked, Linked-set, NotIn}
use gocusp.IdBucket.Grow.{Ready, make_room-Ready}
use gocusp.IdBucket.View.{content?, contents, contents-set}
use gocusp.Ml.{ok, pos, ℤ}

module _ {ℓ} {A : Type ℓ} where
  -- What `alloc` returns: a handle that was free, under which the value now stands.
  pub record Allocated (b : Bucket A) (x : A) : Type ℓ where
    pub handle : ℕ
    pub after : Bucket A
    pub returns : alloc b x ≡ ok (pos handle, after)
    pub fresh : contents b handle ≡ none
    pub stored : (j : ℕ) → contents after j ≡ (if handle == j then some x else contents b j)
    pub valid : IsValid after

  pub set_complete :
      (t : List (Cell A)) (i : ℕ) (is : List ℕ) (x : A)
      → i < length t
      → ((j : ℕ) (m : ℤ) → get_elem? t j ≡ some (free_cell m) → (j ≡ i) ⊎ In j is)
      → (j : ℕ) (m : ℤ) → get_elem? (set t i (full_cell x)) j ≡ some (free_cell m)
      → In j is
  set_complete t i is x h c j m e = elim (Bool-cases (i == j)) [
    | inl q ↦ absurd (clash ((==_iff i j).0 q))
    | inr q ↦ elim (c j m (sym (get_elem?-set_ne t i j (full_cell x) (λ p. ground arith)) ∙ e)) [
      | inl p ↦ absurd (ground arith)
      | inr k ↦ k
    ]
  ]
    where
      clash : i ≡ j → ⊥
      clash p = cc (
        get_elem?-set_self t i (full_cell x) h,
        subst (λ k. get_elem? (set t i (full_cell x)) k ≡ some (free_cell m)) (sym p) e,
      )

  -- A write of a full cell at the head of the free list.
  set-IsValid :
      (t : List (Cell A)) (i : ℕ) (n : ℤ) (is : List ℕ) (x : A)
      → i < length t
      → NotIn i is
      → Linked t n is
      → ((j : ℕ) (m : ℤ) → get_elem? t j ≡ some (free_cell m) → (j ≡ i) ⊎ In j is)
      → IsValid (record { free = n; table = set t i (full_cell x) })
  set-IsValid t i n is x h d l c = record {
    cells = is;
    nonempty = rw (length-set t i (full_cell x)) (omega arith);
    linked = Linked-set t i (full_cell x) l d;
    complete = λ j m e. set_complete t i is x h c j m e;
  }

  alloc-Ready :
      (b r : Bucket A) (x : A) → make_room b.free b.table ≡ r → Ready b.table r → Allocated b x
  unfolding alloc
  alloc-Ready b r x e ready = record {
    handle = ready.index;
    after = record { free = ready.next; table = set r.table ready.index (full_cell x) };
    returns = rw (e, ready.at_index, ready.is_free);
    fresh = sym (ready.same ready.index) ∙ ap content? ready.is_free;
    stored = λ j. rw (← ready.same j) (contents-set r.table ready.index j (full_cell x) within);
    valid =
        set-IsValid r.table ready.index ready.next ready.rest x within ready.apart ready.linked
          ready.complete;
  }
    where
      within : ready.index < length r.table
      within = lt_of_get_elem? r.table ready.index _ ready.is_free

  -- On a bucket whose free list links exactly its free cells, each once, `alloc` succeeds: it
  -- returns a handle that is not in use, after it that handle stands for the new value and
  -- every other handle for what it stood for, and the free list again links exactly the free
  -- cells.
  pub alloc-Allocated : (b : Bucket A) (x : A) → IsValid b → Allocated b x
  alloc-Allocated b x v =
      alloc-Ready b (make_room b.free b.table) x refl
        (make_room-Ready b.table v.nonempty v.complete v.linked)
