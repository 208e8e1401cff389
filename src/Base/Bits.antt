-- ===== src/Base/Bits.antt =====
-- The native `bit_and` and `bit_or`, one binary digit at a time.
use Prim.Native.Nat.{bit_and, bit_and-bitwise, bit_or, bit_or-bitwise, digits, max, min}
use gocusp.Base.{ap, arith, refl, suc, zero, ℕ, ◌%◌, ◌*◌, ◌+◌, ◌-◌, ◌/◌, ◌<◌, ◌^◌, ◌∙◌, ◌≡◌, ◌≤◌}
use native.Mathlib.Nat.{pow-succ'}

-- Both operations run through the binary digits, as many as a count says. Any count that is no less
-- than the first number gives the same.
module _ (rest : ℕ → ℕ) (op : ℕ → ℕ → ℕ) where
  same_digits : (a b n m : ℕ) → a ≤ min n m → digits rest op n a b ≡ digits rest op m a b
  same_digits zero b zero zero h = refl
  same_digits zero b zero (suc m) h = refl
  same_digits zero b (suc n) zero h = refl
  same_digits zero b (suc n) (suc m) h = refl
  same_digits (suc a) b zero m h = absurd (omega arith)
  same_digits (suc a) b (suc n) zero h = absurd (omega arith)
  same_digits (suc a) b (suc n) (suc m) h =
      ap (λ t. t * 2 + op (suc a % 2) (b % 2)) (same_digits (suc a / 2) (b / 2) n m (omega arith))

  by_halves :
      (a b : ℕ)
      → digits rest op (suc a) (suc a) b
        ≡ digits rest op (suc a / 2) (suc a / 2) (b / 2) * 2 + op (suc a % 2) (b % 2)
  by_halves a b =
      ap (λ t. t * 2 + op (suc a % 2) (b % 2))
        (same_digits (suc a / 2) (b / 2) a (suc a / 2) (omega arith))

pub bit_and_step : (a b : ℕ) → bit_and a b ≡ 2 * bit_and (a / 2) (b / 2) + min (a % 2) (b % 2)
bit_and_step zero b = omega (arith, bit_and-bitwise 0 (b / 2), bit_and-bitwise 0 b)
bit_and_step (suc a) b =
    let digits_of = bit_and-bitwise (suc a) b ∙ by_halves (λ _. zero) min a b in
    omega (arith, digits_of, bit_and-bitwise (suc a / 2) (b / 2))

pub bit_or_step : (a b : ℕ) → bit_or a b ≡ 2 * bit_or (a / 2) (b / 2) + max (a % 2) (b % 2)
bit_or_step zero b = omega (arith, bit_or-bitwise 0 (b / 2), bit_or-bitwise 0 b)
bit_or_step (suc a) b =
    let digits_of = bit_or-bitwise (suc a) b ∙ by_halves (λ t. t) max a b in
    omega (arith, digits_of, bit_or-bitwise (suc a / 2) (b / 2))

no_bits : (bound a : ℕ) → a ≤ bound → bit_and a 0 ≡ 0
no_bits bound zero h = refl
no_bits zero (suc a) h = absurd (omega arith)
no_bits (suc bound) (suc a) h =
    let halved = no_bits bound (suc a / 2) (omega arith) in
    omega (arith, halved, bit_and_step (suc a) 0)

pub bit_and-zero : (a : ℕ) → bit_and a 0 ≡ 0
bit_and-zero a = no_bits a a (omega arith)

pub bit_and-one : (a : ℕ) → bit_and a 1 ≡ a % 2
bit_and-one a = omega (arith, no_bits (a / 2) (a / 2) (omega arith), bit_and_step a 1)

pub two_pow_suc : (n : ℕ) → 2 ^ suc n ≡ 2 * 2 ^ n
two_pow_suc n = pow-succ' 2 n

-- A mask of n ones keeps a number of n bits.
pub bit_and_ones : (n x : ℕ) → x < 2 ^ n → bit_and x (2 ^ n - 1) ≡ x
bit_and_ones zero x h = omega (arith, no_bits x x (omega arith))
bit_and_ones (suc n) x h = omega (
  arith,
  two_pow_suc n,
  bit_and_step x (2 ^ suc n - 1),
  ap (bit_and (x / 2)) (half_ones n),
  bit_and_ones n (x / 2) (omega (arith, two_pow_suc n)),
)
  where
    half_ones : (n : ℕ) → (2 ^ suc n - 1) / 2 ≡ 2 ^ n - 1
    half_ones n = omega (arith, two_pow_suc n)

-- Bit k of a number, 0 or 1.
unfoldable pub bit : ℕ → ℕ → ℕ
bit zero x = x % 2
bit (suc k) x = bit k (x / 2)

pub bit-lt : (k x : ℕ) → bit k x < 2
unfolding bit
bit-lt zero x = omega arith
bit-lt (suc k) x = bit-lt k (x / 2)

pub bit-bit_and : (k a b : ℕ) → bit k (bit_and a b) ≡ min (bit k a) (bit k b)
unfolding bit
bit-bit_and zero a b = omega (arith, bit_and_step a b)
bit-bit_and (suc k) a b =
    let half : bit_and a b / 2 ≡ bit_and (a / 2) (b / 2) = omega (arith, bit_and_step a b) in
    ap (bit k) half ∙ bit-bit_and k (a / 2) (b / 2)

pub bit-bit_or : (k a b : ℕ) → bit k (bit_or a b) ≡ max (bit k a) (bit k b)
unfolding bit
bit-bit_or zero a b = omega (arith, bit_or_step a b)
bit-bit_or (suc k) a b =
    let half : bit_or a b / 2 ≡ bit_or (a / 2) (b / 2) = omega (arith, bit_or_step a b) in
    ap (bit k) half ∙ bit-bit_or k (a / 2) (b / 2)

pub bit_complement : (n k b : ℕ) → k < n → b < 2 ^ n → bit k (2 ^ n - 1 - b) ≡ 1 - bit k b
unfolding bit
bit_complement zero k b l h = elim l [ ]
bit_complement (suc n) zero b l h = omega (arith, two_pow_suc n)
bit_complement (suc n) (suc k) b l h =
    let half : (2 ^ suc n - 1 - b) / 2 ≡ 2 ^ n - 1 - b / 2 = omega (arith, two_pow_suc n) in
    ap (bit k) half ∙ bit_complement n k (b / 2) (omega arith) (omega (arith, two_pow_suc n))

-- A mask of one bit.
pub bit_and_pow : (k a : ℕ) → bit_and a (2 ^ k) ≡ bit k a * 2 ^ k
unfolding bit
bit_and_pow zero a = omega (arith, bit_and-one a)
bit_and_pow (suc k) a =
    let half : 2 ^ suc k / 2 ≡ 2 ^ k = omega (arith, two_pow_suc k) in
    omega (
      arith,
      two_pow_suc k,
      bit_and_step a (2 ^ suc k),
      ap (bit_and (a / 2)) half,
      bit_and_pow k (a / 2),
      ap (λ (t : ℕ). bit k (a / 2) * t) (two_pow_suc k),
    )

pub one-le-two_pow : (n : ℕ) → 1 ≤ 2 ^ n
one-le-two_pow zero = omega arith
one-le-two_pow (suc n) = omega (arith, one-le-two_pow n, two_pow_suc n)
