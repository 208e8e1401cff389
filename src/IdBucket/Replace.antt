-- ===== src/IdBucket/Replace.antt =====
-- id-bucket.sml: `replace` of a handle in use.
use gocusp.Base.{
  get_elem?, if◌then◌else◌, inr, length, length-set, lt_of_get_elem?, set, some, ℕ, ◌<◌, ◌==◌, ◌≡◌,
}
use gocusp.IdBucket.{Bucket, full_cell, replace}
use gocusp.IdBucket.Alloc.{set_complete}
use gocusp.IdBucket.Chain.{IsValid, Linked-set, full-NotIn}
use gocusp.IdBucket.Release.{full_of_content}
use gocusp.IdBucket.View.{contents, contents-set}
use gocusp.Ml.{ok, pos}

module _ {ℓ} {A : Type ℓ} where
  -- What a successful `replace` leaves.
  pub record Replaced (b : Bucket A) (i : ℕ) (y : A) : Type ℓ where
    pub after : Bucket A
    pub returns : replace b (pos i) y ≡ ok after
    pub replaced : (j : ℕ) → contents after j ≡ (if i == j then some y else contents b j)
    pub valid : IsValid after

  -- On a bucket whose free list links exactly its free cells, each once, `replace` of a handle
  -- in use succeeds: after it the handle stands for the new value and every other handle for
  -- what it stood for, and the free list still links exactly the free cells.
  pub replace-Replaced :
      (b : Bucket A) (i : ℕ) (x y : A) → IsValid b → contents b i ≡ some x → Replaced b i y
  unfolding replace
  replace-Replaced b i x y v e = record {
    after = record b { table = set b.table i (full_cell y) };
    returns = rw full;
    replaced = λ j. contents-set b.table i j (full_cell y) within;
    valid = record {
      cells = v.cells;
      nonempty = rw (length-set b.table i (full_cell y)) v.nonempty;
      linked = Linked-set b.table i (full_cell y) v.linked (full-NotIn b.table i x v.linked full);
      complete =
          λ j m p. set_complete b.table i v.cells y within (λ k n q. inr (v.complete k n q)) j m p;
    };
  }
    where
      full : get_elem? b.table i ≡ some (full_cell x)
      full = full_of_content (get_elem? b.table i) x e

      within : i < length b.table
      within = lt_of_get_elem? b.table i (full_cell x) full
