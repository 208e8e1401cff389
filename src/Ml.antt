-- ===== src/Ml.antt =====
-- What a call into the SML side may end with: a value, or one of the exceptions of the basis
-- library's arrays and of util/container/id-bucket.sml.
use gocusp.Base.{Bool, false, if◌then◌else◌, leb, ltb, suc, true, zero, ℕ, ◌+◌, ◌-◌}

pub data Exn : Type 0 where
  subscript : Exn
  already_free : Exn
  fail : Exn

pub data Result {ℓ} (A : Type ℓ) : Type ℓ where
  ok : A → Result A
  raise : Exn → Result A

infixl 5 ◌>>=◌
abbrev pub ◌>>=◌ {ℓ κ} : {A : Type ℓ} {B : Type κ} → Result A → (A → Result B) → Result B
ok a >>= f = f a
raise e >>= f = raise e

-- A signed machine integer of the program; `negsuc n` is -(n + 1).
pub data ℤ : Type 0 where
  pos : ℕ → ℤ
  negsuc : ℕ → ℤ

abbrev pub minus_one : ℤ
minus_one = negsuc 0

abbrev pub minus_two : ℤ
minus_two = negsuc 1

-- The test `i >= 0`.
abbrev pub is_nonneg : ℤ → Bool
is_nonneg (pos n) = true
is_nonneg (negsuc n) = false

-- i + n and i - n, and the negation
abbrev pub add_ℤ : ℤ → ℕ → ℤ
add_ℤ (pos a) n = pos (a + n)
add_ℤ (negsuc a) n = if ltb a n then pos (n - a - 1) else negsuc (a - n)

abbrev pub sub_ℤ : ℤ → ℕ → ℤ
sub_ℤ (pos a) n = if leb n a then pos (a - n) else negsuc (n - a - 1)
sub_ℤ (negsuc a) n = negsuc (a + n)

abbrev pub negate : ℤ → ℤ
negate (pos zero) = pos 0
negate (pos (suc n)) = negsuc n
negate (negsuc n) = pos (suc n)
