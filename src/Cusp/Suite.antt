-- ===== src/Cusp/Suite.antt =====
-- cusp.h and cusp.cpp: PublicKeySuite, SymmetricSuite and their sets. A suite is a `uint16_t` with
-- one bit set, a set of suites a `uint16_t` with a bit for each member. The two pairs of classes
-- have the same code; what stands here once says for which lines it stands.
pub mod Enumerate
pub mod Algebra
use Prim.Native.Nat.{bit_and, bit_or}
use gocusp.Base.{
  Bool, List, [], false, if◌then◌else◌, not, suc, zero, ℕ, ◌%◌, ◌*◌, ◌-◌, ◌/◌, ◌==◌, ◌^◌, ◌∷◌,
}

abbrev pub word_mod : ℕ
word_mod = 2 ^ 16

-- ~v, cut to 16 bits.
abbrev pub complement : ℕ → ℕ
complement v = word_mod - 1 - v

-- (value && !(value & (value - 1)))
pub suite_is_valid : ℕ → Bool
suite_is_valid value = if value == 0 then false else bit_and value (value - 1) == 0

pub set_intersect : ℕ → ℕ → ℕ
set_intersect set' b = bit_and set' b

pub set_union : ℕ → ℕ → ℕ
set_union set' b = bit_or set' b

pub set_subtract : ℕ → ℕ → ℕ
set_subtract set' b = bit_and set' (complement b)

pub set_is_empty : ℕ → Bool
set_is_empty set' = set' == 0

pub set_contains : ℕ → ℕ → Bool
set_contains set' value = not (bit_and set' value == 0)

pub set_add : ℕ → ℕ → ℕ
set_add set' value = bit_or set' value

pub set_element : ℕ → ℕ
set_element value = value

pub has_next : ℕ → Bool
has_next set' = not (set' == 0)

-- The loop of `next`, with the rounds left, `s`, `v` and `set`; the suite and the new `set`.
pub next_loop : ℕ → ℕ → ℕ → ℕ → ℕ × ℕ
next_loop zero s v set' = (0, set')
next_loop (suc rounds) s v set' =
    let rest = next_loop rounds (s / 2) (v * 2 % word_mod) set' in
    if bit_and s 1 == 1 then (v, bit_and set' (complement v)) else rest

-- PublicKeySuiteSet::Iterator::next
pub next : ℕ → ℕ × ℕ
unfolding next_loop
next set' = next_loop 16 set' 1 set'

-- SymmetricSuiteSet::Iterator::next
pub symmetric_next : ℕ → ℕ × ℕ
unfolding next_loop
symmetric_next set' = next_loop 16 set' 1 set'

-- for (Iterator it = set.iterator(); it.hasNext(); ) { suite = it.next(); ... }, with a bound on
-- the rounds.
unfoldable pub iterate : ℕ → ℕ → List ℕ
iterate zero set' = []
iterate (suc rounds) set' =
    let rest = iterate rounds (next set').1 in if has_next set' then (next set').0 ∷ rest else []
