-- ===== src/Cusp/Suite/Enumerate.antt =====
-- cusp.cpp: the iterators over sets of suites, against the list of the members of a set.
use Prim.Native.Nat.{bit_and}
use gocusp.Base.{
  Bool-cases, List, [], ap, arith, false, if◌then◌else◌, inl, inr, length, refl, suc, sym, true,
  zero, ℕ, ◌%◌, ◌*◌, ◌-◌, ◌/◌, ◌<◌, ◌==◌, ◌^◌, ◌∙◌, ◌∷◌, ◌≡◌, ◌≤◌,
}
use gocusp.Base.Bits.{bit_and-one, bit_and_ones, bit_and_step, one-le-two_pow, two_pow_suc}
use gocusp.Cusp.Suite.{complement, has_next, iterate, next, next_loop, word_mod}

-- The lowest set bit of a number of n bits, or 0.
pub low : ℕ → ℕ → ℕ
low zero s = 0
low (suc n) s = let rest = low n (s / 2) in if s % 2 == 1 then 1 else 2 * rest

-- The members of a set of n bits from the lowest up, where bit i stands for v * 2 ^ i.
unfoldable pub members : ℕ → ℕ → ℕ → List ℕ
members zero v s = []
members (suc n) v s = let rest = members n (v * 2) (s / 2) in if s % 2 == 1 then v ∷ rest else rest

low-le : (n s : ℕ) → low n s ≤ s
unfolding low
low-le zero s = omega arith
low-le (suc n) s = ground (arith, low-le n (s / 2))

low-lt : (n s : ℕ) → low n s < 2 ^ n
unfolding low
low-lt zero s = omega arith
low-lt (suc n) s = ground (arith, low-lt n (s / 2), two_pow_suc n)

pub low-pos : (n s : ℕ) → s < 2 ^ n → 0 < s → 0 < low n s
unfolding low
low-pos zero s h p = absurd (omega arith)
low-pos (suc n) s h p = ground (arith, low-pos n (s / 2), two_pow_suc n)

pub low_odd : (n s : ℕ) → (s % 2 == 1) ≡ true → low (suc n) s ≡ 1
unfolding low
low_odd n s e = rw e

pub low_even : (n s : ℕ) → (s % 2 == 1) ≡ false → low (suc n) s ≡ 2 * low n (s / 2)
unfolding low
low_even n s e = rw e

clear_odd : (n s : ℕ) → s < 2 ^ suc n → s % 2 ≡ 1 → bit_and s (2 ^ suc n - 1 - 1) ≡ s - 1
clear_odd n s h e =
    let mask : (2 ^ suc n - 1 - 1) / 2 ≡ 2 ^ n - 1 = omega (arith, two_pow_suc n) in
    omega (
      arith,
      two_pow_suc n,
      bit_and_step s (2 ^ suc n - 1 - 1),
      ap (bit_and (s / 2)) mask,
      bit_and_ones n (s / 2) (omega (arith, two_pow_suc n)),
    )

clear_even :
    (n s l : ℕ)
    → s % 2 ≡ 0
    → l < 2 ^ n
    → bit_and (s / 2) (2 ^ n - 1 - l) ≡ s / 2 - l
    → l ≤ s / 2
    → bit_and s (2 ^ suc n - 1 - 2 * l) ≡ s - 2 * l
clear_even n s l e b ih le =
    let mask : (2 ^ suc n - 1 - 2 * l) / 2 ≡ 2 ^ n - 1 - l = omega (arith, two_pow_suc n) in
    omega
      (arith, two_pow_suc n, bit_and_step s (2 ^ suc n - 1 - 2 * l), ap (bit_and (s / 2)) mask, ih)

-- Clearing the lowest bit is subtracting it.
clear_low : (n s : ℕ) → s < 2 ^ n → 0 < s → bit_and s (2 ^ n - 1 - low n s) ≡ s - low n s
clear_low zero s h p = absurd (omega arith)
clear_low (suc n) s h p = elim (Bool-cases (s % 2 == 1)) [
  | inl odd ↦ rw (low_odd n s odd) (clear_odd n s h (ground arith))
  | inr even ↦
      let half : s / 2 < 2 ^ n = omega (arith, two_pow_suc n) in
      rw (low_even n s even) (
        clear_even n s (low n (s / 2)) (ground arith) (low-lt n (s / 2))
          (clear_low n (s / 2) half (ground arith)) (low-le n (s / 2)))
]

times_one : (v : ℕ) → v * 1 ≡ v
times_one v = omega arith

next_loop_odd :
    (n s v set' : ℕ)
    → (s % 2 == 1) ≡ true
    → next_loop (suc n) s v set' ≡ (v, bit_and set' (complement v))
unfolding next_loop
next_loop_odd n s v set' e = rw (bit_and-one s, e)

next_loop_even :
    (n s v set' : ℕ)
    → (s % 2 == 1) ≡ false
    → next_loop (suc n) s v set' ≡ next_loop n (s / 2) (v * 2 % word_mod) set'
unfolding next_loop
next_loop_even n s v set' e = rw (bit_and-one s, e)

mul_le : (v a b : ℕ) → a ≤ b → v * a ≤ v * b
mul_le v a b h = grind arith

-- The bit does not leave the word before the last round.
shift_fits : (n v : ℕ) → v * 2 ^ suc n ≤ word_mod → 0 < n → v * 2 % word_mod ≡ v * 2
shift_fits zero v b p = absurd (omega arith)
shift_fits (suc n) v b p =
    let more : v * 1 ≤ v * 2 ^ n = mul_le v 1 (2 ^ n) (one-le-two_pow n) in
    let grown : v * 2 ^ suc (suc n) ≡ 4 * (v * 2 ^ n) =
      omega (
        arith,
        ap (λ (t : ℕ). v * t) (two_pow_suc (suc n)),
        ap (λ (t : ℕ). v * t) (two_pow_suc n),
      ) in
    omega arith

even_needs_room : (n s : ℕ) → s < 2 ^ suc n → (s % 2 == 1) ≡ false → 0 < s → 0 < n
even_needs_room zero s h e p = ground arith
even_needs_room (suc n) s h e p = omega arith

next_loop-low :
    (n s v set' : ℕ)
    → v * 2 ^ n ≤ word_mod
    → s < 2 ^ n
    → 0 < s
    → next_loop n s v set' ≡ (v * low n s, bit_and set' (complement (v * low n s)))
next_loop-low zero s v set' b h p = absurd (omega arith)
next_loop-low (suc n) s v set' b h p = elim (Bool-cases (s % 2 == 1)) [
  | inl odd ↦ rw (next_loop_odd n s v set' odd, low_odd n s odd) (rw (times_one v))
  | inr even ↦
      let half : s / 2 < 2 ^ n = omega (arith, two_pow_suc n) in
      let fits : v * 2 % word_mod ≡ v * 2 = shift_fits n v b (even_needs_room n s h even p) in
      let assoc : v * (2 * low n (s / 2)) ≡ v * 2 * low n (s / 2) = grind arith in
      rw (next_loop_even n s v set' even, low_even n s even, fits, assoc)
        (next_loop-low n (s / 2) (v * 2) set' (omega (arith, ap (λ (t : ℕ). v * t) (two_pow_suc n)))
          half (ground arith))
]

members-zero : (n v : ℕ) → members n v 0 ≡ []
unfolding members
members-zero zero v = refl
members-zero (suc n) v = members-zero n (v * 2)

members_odd :
    (n v s : ℕ) → (s % 2 == 1) ≡ true → members (suc n) v s ≡ v ∷ members n (v * 2) (s / 2)
unfolding members
members_odd n v s e = rw e

members_even : (n v s : ℕ) → (s % 2 == 1) ≡ false → members (suc n) v s ≡ members n (v * 2) (s / 2)
unfolding members
members_even n v s e = rw e

-- The lowest bit is the first member, and clearing it leaves the other members.
members-low :
    (n v s : ℕ) → s < 2 ^ n → 0 < s → members n v s ≡ (v * low n s) ∷ members n v (s - low n s)
members-low zero v s h p = absurd (omega arith)
members-low (suc n) v s h p = elim (Bool-cases (s % 2 == 1)) [
  | inl odd ↦
      rw
        (
          low_odd n s odd,
          members_odd n v s odd,
          times_one v,
          members_even n v (s - 1) (ground arith),
        )
        (ap (◌∷◌ v) (ap (members n (v * 2)) (ground arith)))
  | inr even ↦
      let half : s / 2 < 2 ^ n = omega (arith, two_pow_suc n) in
      let le = low-le n (s / 2) in
      let assoc : v * (2 * low n (s / 2)) ≡ v * 2 * low n (s / 2) = grind arith in
      let rest : (s - 2 * low n (s / 2)) / 2 ≡ s / 2 - low n (s / 2) = omega arith in
      let even' : ((s - 2 * low n (s / 2)) % 2 == 1) ≡ false = ground arith in
      rw
        (
          low_even n s even,
          members_even n v s even,
          assoc,
          members_even n v (s - 2 * low n (s / 2)) even',
          rest,
        )
        (members-low n (v * 2) (s / 2) half (ground arith))
]

pub next-low :
    (set' : ℕ) → set' < word_mod → 0 < set' → next set' ≡ (low 16 set', set' - low 16 set')
unfolding next
next-low set' h p =
    let one : 1 * low 16 set' ≡ low 16 set' = omega arith in
    rw (next_loop-low 16 set' 1 set' (omega arith) h p, one, clear_low 16 set' h p)

-- `next` of a set of suites that is not empty returns its lowest member and leaves the set of
-- the others, which is a smaller number.
pub next-members :
    (set' : ℕ)
    → set' < word_mod
    → 0 < set'
    → (members 16 1 set' ≡ (next set').0 ∷ members 16 1 (next set').1) × ((next set').1 < set')
next-members set' h p =
    let one : 1 * low 16 set' ≡ low 16 set' = omega arith in
    rw (next-low set' h p)
      (rw one at (members-low 16 1 set' h p), omega (arith, low-pos 16 set' h p))

length-members : (n v s : ℕ) → length (members n v s) ≤ n
unfolding members
length-members zero v s = omega arith
length-members (suc n) v s = ground (arith, length-members n (v * 2) (s / 2))

iterate-empty : (rounds : ℕ) → iterate rounds 0 ≡ []
unfolding iterate has_next
iterate-empty zero = refl
iterate-empty (suc rounds) = refl

iterate_next :
    (rounds set' : ℕ)
    → 0 < set'
    → iterate (suc rounds) set' ≡ (next set').0 ∷ iterate rounds (next set').1
unfolding iterate has_next
iterate_next rounds set' p = ground arith

iterate-fuel :
    (rounds set' : ℕ)
    → set' < word_mod
    → length (members 16 1 set') ≤ rounds
    → iterate rounds set' ≡ members 16 1 set'
iterate-fuel rounds zero h l = iterate-empty rounds ∙ sym (members-zero 16 1)
iterate-fuel zero (suc k) h l =
    absurd (omega (arith, ap (length {A = ℕ}) (next-members (suc k) h (omega arith)).0))
iterate-fuel (suc rounds) (suc k) h l =
    let (e, less) = next-members (suc k) h (omega arith) in
    rw (iterate_next rounds (suc k) (omega arith), e)
      (ap (◌∷◌ (next (suc k)).0)
        (iterate-fuel rounds (next (suc k)).1 (omega arith) (omega (arith, ap (length {A = ℕ}) e))))

-- Iterating over any set of suites, a number below 2 ^ 16, with `hasNext` and `next` returns its
-- members, each once and in ascending order, and sixteen rounds are enough.
pub iterate-members : (set' : ℕ) → set' < word_mod → iterate 16 set' ≡ members 16 1 set'
iterate-members set' h = iterate-fuel 16 set' h (length-members 16 1 set')
