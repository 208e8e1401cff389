-- ===== src/IdBucket.antt =====
-- util/container/id-bucket.sml: a growing array whose empty cells are chained in a free list, which
-- gives out the integer handles that the C++ side holds. Array accesses out of range raise
-- Subscript, as in the basis library. Integers do not overflow: a table is bounded by the memory.
pub mod Chain
pub mod Grow
pub mod Alloc
pub mod Release
pub mod Replace
pub mod History
pub mod View
use gocusp.Base.{
  List, Option, get_elem?, get_or, if◌then◌else◌, length, ltb, none, set, some, suc, tabulate, zero,
  ℕ, ◌+◌, ◌-◌, ◌==◌,
}
use gocusp.Ml.{Result, already_free, fail, minus_one, negsuc, ok, pos, raise, subscript, ℤ, ◌>>=◌}

pub data Cell {ℓ} (A : Type ℓ) : Type ℓ where
  free_cell : ℤ → Cell A
  full_cell : A → Cell A

pub record Bucket {ℓ} (A : Type ℓ) : Type ℓ where
  pub free : ℤ
  pub table : List (Cell A)

-- The index of the cell before the i-th, or -1.
abbrev pub pred_index : ℕ → ℤ
pred_index i = if i == 0 then minus_one else pos (i - 1)

abbrev pub or_subscript {κ} : {B : Type κ} → Option B → Result B
or_subscript none = raise subscript
or_subscript (some c) = ok c

module _ {ℓ} {A : Type ℓ} where
  unfoldable pub new : Bucket A
  new = record { free = pos 3; table = tabulate 4 (λ i. free_cell (pred_index i)) }

  -- Array.sub
  abbrev pub array_sub : List (Cell A) → ℤ → Result (Cell A)
  array_sub t (pos i) = or_subscript (get_elem? t i)
  array_sub t (negsuc i) = raise subscript

  -- Array.update, at an index that was read before.
  abbrev pub array_update : List (Cell A) → ℤ → Cell A → List (Cell A)
  array_update t (pos i) c = set t i c
  array_update t (negsuc i) c = t

  abbrev pub content : Cell A → Option A
  content (free_cell _) = none
  content (full_cell x) = some x

  unfoldable pub sub : Bucket A → ℤ → Result (Option A)
  sub b i = do c ← array_sub b.table i; ok (content c)

  -- `get` of `alloc`: the first oldlen cells are copied, the others chained downwards.
  abbrev pub grown_cell : List (Cell A) → ℕ → Cell A
  grown_cell t i =
      if ltb i (length t)
      then get_or t i (free_cell minus_one)
      else if i == length t
      then free_cell minus_one
      else free_cell (pos (i - 1))

  -- `grow` of `alloc`.
  pub grow : List (Cell A) → Bucket A
  grow t =
      let newlen = length t + length t in
      record { free = pred_index newlen; table = tabulate newlen (grown_cell t) }

  -- The free index and the table that `alloc` goes on with.
  pub make_room : ℤ → List (Cell A) → Bucket A
  make_room (negsuc zero) t = grow t
  make_room (negsuc (suc k)) t = record { free = negsuc (suc k); table = t }
  make_room (pos i) t = record { free = pos i; table = t }

  abbrev pub fill : Bucket A → A → Cell A → Result (ℤ × Bucket A)
  fill b x (full_cell y) = raise fail
  fill b x (free_cell next) =
      ok (b.free, record { free = next; table = array_update b.table b.free (full_cell x) })

  unfoldable pub alloc : Bucket A → A → Result (ℤ × Bucket A)
  unfolding make_room grow
  alloc b x = let r = make_room b.free b.table in do c ← array_sub r.table r.free; fill r x c

  abbrev pub vacate : Bucket A → ℤ → Cell A → Result (Bucket A)
  vacate b i (free_cell _) = raise already_free
  vacate b i (full_cell _) =
      ok (record { free = i; table = array_update b.table i (free_cell b.free) })

  unfoldable pub free : Bucket A → ℤ → Result (Bucket A)
  free b i = do c ← array_sub b.table i; vacate b i c

  abbrev pub overwrite : Bucket A → ℤ → A → Cell A → Result (Bucket A)
  overwrite b i x (free_cell _) = raise already_free
  overwrite b i x (full_cell _) = ok (record b { table = array_update b.table i (full_cell x) })

  unfoldable pub replace : Bucket A → ℤ → A → Result (Bucket A)
  replace b i x = do c ← array_sub b.table i; overwrite b i x c
