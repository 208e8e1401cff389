-- ===== src/Cusp/Suite/Algebra.antt =====
-- cusp.h: the operations on sets of suites and the test for a suite, bit by bit.
use Prim.Native.Nat.{bit_and, bit_or}
use gocusp.Base.{
  Bool-cases, ap, arith, if◌then◌else◌, inl, inr, not, refl, suc, true, zero, ℕ, ◌%◌, ◌&&◌, ◌*◌,
  ◌-◌, ◌/◌, ◌<◌, ◌==◌, ◌^◌, ◌||◌, ◌∙◌, ◌≡◌,
}
use gocusp.Base.Bits.{
  bit, bit-bit_and, bit-bit_or, bit-lt, bit_and-zero, bit_and_pow, bit_and_step, bit_complement,
  one-le-two_pow, two_pow_suc,
}
use gocusp.Cusp.Suite.{
  complement, has_next, next, set_add, set_contains, set_element, set_intersect, set_subtract,
  set_union, suite_is_valid, symmetric_next, word_mod,
}
use gocusp.Cusp.Suite.Enumerate.{low, low-pos, low_even, low_odd, next-low, next-members}
use mathlib.Core.Path.{ap₂}

-- Membership of the suite with bit k is that bit.
contains-bit : (k a : ℕ) → set_contains a (2 ^ k) ≡ (bit k a == 1)
unfolding set_contains
contains-bit k a = ground (arith, bit_and_pow k a, bit-lt k a, one-le-two_pow k)

bit-zero : (k : ℕ) → bit k 0 ≡ 0
unfolding bit
bit-zero zero = refl
bit-zero (suc k) = bit-zero k

bit_pow : (k j : ℕ) → bit k (2 ^ j) ≡ (if k == j then 1 else 0)
unfolding bit
bit_pow zero zero = refl
bit_pow zero (suc j) = ground (arith, two_pow_suc j)
bit_pow (suc k) zero = bit-zero k ∙ ground arith
bit_pow (suc k) (suc j) =
    let half : 2 ^ suc j / 2 ≡ 2 ^ j = omega (arith, two_pow_suc j) in
    ap (bit k) half ∙ bit_pow k j ∙ ground arith

contains-intersect :
    (k a b : ℕ)
    → set_contains (set_intersect a b) (2 ^ k) ≡ (set_contains a (2 ^ k) && set_contains b (2 ^ k))
unfolding set_intersect
contains-intersect k a b =
    rw (contains-bit k a, contains-bit k b, contains-bit k (bit_and a b))
      (ground (arith, bit-bit_and k a b, bit-lt k a, bit-lt k b))

contains-union :
    (k a b : ℕ)
    → set_contains (set_union a b) (2 ^ k) ≡ (set_contains a (2 ^ k) || set_contains b (2 ^ k))
unfolding set_union
contains-union k a b =
    rw (contains-bit k a, contains-bit k b, contains-bit k (bit_or a b))
      (ground (arith, bit-bit_or k a b, bit-lt k a, bit-lt k b))

contains-subtract :
    (k a b : ℕ)
    → k < 16
    → b < word_mod
    → set_contains (set_subtract a b) (2 ^ k)
      ≡ (set_contains a (2 ^ k) && not (set_contains b (2 ^ k)))
unfolding set_subtract
contains-subtract k a b h hb =
    rw (contains-bit k a, contains-bit k b, contains-bit k (bit_and a (complement b)))
      (ground
        (arith, bit-bit_and k a (complement b), bit_complement 16 k b h hb, bit-lt k a, bit-lt k b))

contains-add :
    (k j a : ℕ) → set_contains (set_add a (2 ^ j)) (2 ^ k) ≡ (set_contains a (2 ^ k) || (k == j))
unfolding set_add
contains-add k j a =
    rw (contains-bit k a, contains-bit k (bit_or a (2 ^ j)))
      (ground (arith, bit-bit_or k a (2 ^ j), bit_pow k j, bit-lt k a))

contains-element : (k j : ℕ) → set_contains (set_element (2 ^ j)) (2 ^ k) ≡ (k == j)
unfolding set_element
contains-element k j = rw (contains-bit k (2 ^ j)) (ground (arith, bit_pow k j))

-- For any sets a and b of suites and any suites 2 ^ k and 2 ^ j, with k < 16 and b < 2 ^ 16: 2 ^
-- k is in the intersection if it is in both sets, in the union if it is in one of them, in the
-- difference if it is in a and not in b, in a with 2 ^ j added if it is in a or is 2 ^ j, and in
-- the set of 2 ^ j alone if it is 2 ^ j; and only then.
pub contains_operations :
    (k j a b : ℕ)
    → k < 16
    → b < word_mod
    → (set_contains (set_intersect a b) (2 ^ k)
        ≡ (set_contains a (2 ^ k) && set_contains b (2 ^ k)))
      × (set_contains (set_union a b) (2 ^ k) ≡ (set_contains a (2 ^ k) || set_contains b (2 ^ k)))
      × (set_contains (set_subtract a b) (2 ^ k)
          ≡ (set_contains a (2 ^ k) && not (set_contains b (2 ^ k))))
      × (set_contains (set_add a (2 ^ j)) (2 ^ k) ≡ (set_contains a (2 ^ k) || (k == j)))
      × (set_contains (set_element (2 ^ j)) (2 ^ k) ≡ (k == j))
contains_operations k j a b h hb = (
  contains-intersect k a b,
  contains-union k a b,
  contains-subtract k a b h hb,
  contains-add k j a,
  contains-element k j,
)

valid-double : (l : ℕ) → 0 < l → bit_and l (l - 1) ≡ 0 → bit_and (2 * l) (2 * l - 1) ≡ 0
valid-double l p e =
    let left : 2 * l / 2 ≡ l = omega arith in
    let right : (2 * l - 1) / 2 ≡ l - 1 = omega arith in
    omega (arith, bit_and_step (2 * l) (2 * l - 1), ap₂ bit_and left right, e)

low-power : (n s : ℕ) → s < 2 ^ n → 0 < s → bit_and (low n s) (low n s - 1) ≡ 0
low-power zero s h p = absurd (omega arith)
low-power (suc n) s h p = elim (Bool-cases (s % 2 == 1)) [
  | inl odd ↦ rw (low_odd n s odd) (bit_and-zero 1)
  | inr even ↦
      let half : s / 2 < 2 ^ n = omega (arith, two_pow_suc n) in
      let some' : 0 < s / 2 = ground arith in
      rw (low_even n s even) (
        valid-double (low n (s / 2)) (low-pos n (s / 2) half some')
          (low-power n (s / 2) half some'))
]

-- For any set of suites, a number below 2 ^ 16: what `next` returns is a valid suite exactly
-- when `hasNext` holds.
pub next-valid : (set' : ℕ) → set' < word_mod → suite_is_valid (next set').0 ≡ has_next set'
unfolding suite_is_valid has_next next
next-valid zero h = refl
next-valid (suc m) h =
    rw (next-low (suc m) h (omega arith))
      (ground (arith, low-pos 16 (suc m) h (omega arith), low-power 16 (suc m) h (omega arith)))

pub symmetric_next-eq : (set' : ℕ) → symmetric_next set' ≡ next set'
unfolding symmetric_next next
symmetric_next-eq set' = refl

-- What `next` of a set that is not empty gives to the loops.
pub next_step :
    (set' : ℕ)
    → set' < word_mod
    → has_next set' ≡ true
    → (suite_is_valid (next set').0 ≡ true) × ((next set').1 < word_mod)
unfolding has_next
next_step set' small more =
    let step = next-members set' small (ground arith) in
    (next-valid set' small ∙ more, omega (arith, step.1))
