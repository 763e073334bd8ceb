-- ===== src/Base/Bits.antt =====
-- `|` of a number whose low 8 bits are clear and a byte is their sum.
use Prim.Native.Nat.{
  ℕ, zero, suc, ◌+◌, ◌*◌, ◌/◌, ◌%◌, ◌≤◌, ◌<◌, max, bit_or, digits, bit_or-bitwise,
}
use mathlib.Core.Path.{◌≡◌, refl, ap, ◌∙◌}
use native.Mathlib.Omega.{arith}

abbrev or_digits : ℕ → ℕ → ℕ → ℕ
or_digits n a b = digits (λ c. c) max n a b

or_digits_fuel : (n m a b : ℕ) → a ≤ n → a ≤ m → or_digits n a b ≡ or_digits m a b
or_digits_fuel zero zero a b p q = refl
or_digits_fuel zero (suc m) zero b p q = refl
or_digits_fuel zero (suc m) (suc a) b p q = absurd (omega arith)
or_digits_fuel (suc n) zero zero b p q = refl
or_digits_fuel (suc n) zero (suc a) b p q = absurd (omega arith)
or_digits_fuel (suc n) (suc m) zero b p q = refl
or_digits_fuel (suc n) (suc m) (suc a) b p q =
    omega (arith, or_digits_fuel n m (suc a / 2) (b / 2) (omega arith) (omega arith))

zero-bit_or : (b : ℕ) → bit_or 0 b ≡ b
zero-bit_or b = bit_or-bitwise 0 b

-- The lowest digit of `|`.
bit_or_step : (a b : ℕ) → bit_or a b ≡ bit_or (a / 2) (b / 2) * 2 + max (a % 2) (b % 2)
bit_or_step zero b = omega (arith, zero-bit_or b, zero-bit_or (b / 2))
bit_or_step (suc a) b = omega (
  arith,
  bit_or-bitwise (suc a) b,
  bit_or-bitwise (suc a / 2) (b / 2),
  or_digits_fuel a (suc a / 2) (suc a / 2) (b / 2) (omega arith) (omega arith),
)

bit_or-zero_fuel : (n a : ℕ) → a ≤ n → bit_or a 0 ≡ a
bit_or-zero_fuel n zero h = zero-bit_or 0
bit_or-zero_fuel zero (suc a) h = absurd (omega arith)
bit_or-zero_fuel (suc n) (suc a) h =
    omega (arith, bit_or_step (suc a) 0, bit_or-zero_fuel n (suc a / 2) (omega arith))

bit_or-double : (a b : ℕ) → bit_or (a * 2) b ≡ bit_or a (b / 2) * 2 + b % 2
bit_or-double a b =
    bit_or_step (a * 2) b
    ∙ ap (λ c. bit_or c (b / 2) * 2 + max (a * 2 % 2) (b % 2)) {x = a * 2 / 2} {y = a} (omega arith)
    ∙ omega arith

-- `a` shifted left by `k` places, one place at a time.
abbrev shl : ℕ → ℕ → ℕ
shl zero a = a
shl (suc k) a = shl k a * 2

abbrev shr : ℕ → ℕ → ℕ
shr zero b = b
shr (suc k) b = shr k (b / 2)

abbrev ones : ℕ → ℕ
ones zero = 1
ones (suc k) = ones k * 2

bit_or-shl : (k a b : ℕ) → b < ones k → bit_or (shl k a) b ≡ shl k a + b
bit_or-shl zero a b h =
    let z : b ≡ 0 = omega arith in
    ap (bit_or a) z ∙ bit_or-zero_fuel a a (omega arith) ∙ omega arith
bit_or-shl (suc k) a b h =
    omega (arith, bit_or-double (shl k a) b, bit_or-shl k a (b / 2) (omega arith))

-- The low 8 bits of `a * 256` are clear, so `|` with a byte adds it.
pub bit_or-mul_256 : (a b : ℕ) → b < 256 → bit_or (a * 256) b ≡ a * 256 + b
bit_or-mul_256 a b h =
    let shifted : a * 256 ≡ shl 8 a = omega arith in
    ap (λ c. bit_or c b) shifted ∙ bit_or-shl 8 a b (omega arith) ∙ omega arith
