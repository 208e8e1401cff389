-- ===== src/IdBucket/Grow.antt =====
-- id-bucket.sml: how `alloc` makes room when the free list is empty.
use gocusp.Base.{
  Bool-cases, List, [], ap, arith, get_elem?, get_elem?-get_or, get_elem?-none, get_elem?-tabulate,
  if◌then◌else◌, inl, inr, length, length-tabulate, lt_of_get_elem?, ltb, refl, some, subst, suc,
  zero, ℕ, ◌+◌, ◌-◌, ◌<◌, ◌==◌, ◌∙◌, ◌≡◌, ◌≤◌, ◌⊎◌,
}
use gocusp.IdBucket.{Bucket, Cell, free_cell, grow, grown_cell, make_room}
use gocusp.IdBucket.Chain.{In, Linked, NotIn, end, link, span_down, span_down-In, span_down-NotIn}
use gocusp.IdBucket.View.{cells_at, content?}
use gocusp.Ml.{minus_one, pos, ℤ}

module _ {ℓ} {A : Type ℓ} where
  -- The cell that `grow` puts at an index.
  grow-old : (t : List (Cell A)) (i : ℕ) → i < length t → get_elem? (grow t).table i ≡ get_elem? t i
  unfolding grow
  grow-old t i h =
      get_elem?-tabulate (length t + length t) (grown_cell t) i (omega arith)
      ∙ (ground (arith, get_elem?-get_or t i (free_cell minus_one) h))

  -- The link below the k-th new cell.
  abbrev below : List (Cell A) → ℕ → ℤ
  below t k = if k == 0 then minus_one else pos (length t + k - 1)

  grow-new :
      (t : List (Cell A)) (k : ℕ)
      → k < length t
      → get_elem? (grow t).table (length t + k) ≡ some (free_cell (below t k))
  unfolding grow
  grow-new t k h =
      get_elem?-tabulate (length t + length t) (grown_cell t) (length t + k) (omega arith)
      ∙ ground arith

  length-grow : (t : List (Cell A)) → length (grow t).table ≡ length t + length t
  unfolding grow
  length-grow t = length-tabulate (length t + length t) (grown_cell t)

  contents-grow_new :
      (t : List (Cell A)) (i : ℕ)
      → length t ≤ i
      → i - length t < length t
      → cells_at (grow t).table i ≡ cells_at t i
  contents-grow_new t i h l =
      let e : length t + (i - length t) ≡ i = omega arith in
      ap content? (rw e at (grow-new t (i - length t) l)) ∙ rw (get_elem?-none t i h)

  -- Growing changes no content: the new cells are empty.
  contents-grow : (t : List (Cell A)) (i : ℕ) → cells_at (grow t).table i ≡ cells_at t i
  contents-grow t i = elim (Bool-cases (ltb i (length t))) [
    | inl h ↦ ap content? (grow-old t i (ground arith))
    | inr h ↦ elim (Bool-cases (ltb (i - length t) (length t))) [
      | inl l ↦ contents-grow_new t i (ground arith) (ground arith)
      | inr l ↦
          let beyond : length t + length t ≤ i = ground arith in
          rw (get_elem?-none t i (ground arith))
            (rw (get_elem?-none (grow t).table i (rw (length-grow t) beyond)))
    ]
  ]

  grow-Linked :
      (t : List (Cell A)) (k : ℕ)
      → k ≤ length t
      → Linked (grow t).table (below t k) (span_down (length t) k)
  grow-Linked t zero h = end refl
  grow-Linked t (suc k) h =
      link (length t + k) (below t k) (span_down (length t) k) (ground arith) (grow-new t k h)
        (span_down-NotIn (length t) k (length t + k) (omega arith)) (grow-Linked t k (omega arith))

  -- The free index and the table that `alloc` writes to, seen from the table before.
  pub record Ready (t : List (Cell A)) (r : Bucket A) : Type ℓ where
    pub index : ℕ
    pub next : ℤ
    pub rest : List ℕ
    pub at_index : r.free ≡ pos index
    pub is_free : get_elem? r.table index ≡ some (free_cell next)
    pub apart : NotIn index rest
    pub linked : Linked r.table next rest
    pub complete :
        (i : ℕ) (n : ℤ) → get_elem? r.table i ≡ some (free_cell n) → (i ≡ index) ⊎ In i rest
    pub same : (i : ℕ) → cells_at r.table i ≡ cells_at t i
    pub nonempty : 0 < length r.table

  -- With no free cell, all the free cells of the grown table are new.
  grow_complete :
      (t : List (Cell A))
      → ((i : ℕ) (n : ℤ) → get_elem? t i ≡ some (free_cell n) → In i [])
      → (i : ℕ) (n : ℤ) → get_elem? (grow t).table i ≡ some (free_cell n)
      → In i (span_down (length t) (length t))
  grow_complete t c i n e = elim (Bool-cases (ltb i (length t))) [
    | inl h ↦ absurd (c i n (rw (grow-old t i (ground arith)) at e))
    | inr h ↦
        let bound : i < length (grow t).table = lt_of_get_elem? _ i _ e in
        span_down-In (length t) (length t) i (ground arith) (rw (length-grow t) at bound)
  ]

  grow-free : (t : List (Cell A)) (k : ℕ) → length t ≡ suc k → (grow t).free ≡ pos (length t + k)
  unfolding grow
  grow-free t k e = ground arith

  grow-Ready :
      (t : List (Cell A)) (k : ℕ)
      → length t ≡ suc k
      → ((i : ℕ) (n : ℤ) → get_elem? t i ≡ some (free_cell n) → In i [])
      → Ready t (grow t)
  grow-Ready t k e c = record {
    index = length t + k;
    next = below t k;
    rest = span_down (length t) k;
    at_index = grow-free t k e;
    is_free = grow-new t k (omega arith);
    apart = span_down-NotIn (length t) k (length t + k) (omega arith);
    linked = grow-Linked t k (omega arith);
    complete = λ i n h. subst (λ m. In i (span_down (length t) m)) e (grow_complete t c i n h);
    same = contents-grow t;
    nonempty = rw (length-grow t) (omega arith);
  }

  pub make_room-Ready :
      (t : List (Cell A)) {f : ℤ} {is : List ℕ}
      → 0 < length t
      → ((i : ℕ) (n : ℤ) → get_elem? t i ≡ some (free_cell n) → In i is)
      → Linked t f is
      → Ready t (make_room f t)
  unfolding make_room
  make_room-Ready t z c (end e) = rw (e) (grow-Ready t (length t - 1) (omega arith) c)
  make_room-Ready t {f} z c (link i n is e g d l) = rw e (record {
    index = i;
    next = n;
    rest = is;
    at_index = refl;
    is_free = g;
    apart = d;
    linked = l;
    complete = c;
    same = λ j. refl;
    nonempty = z;
  })
