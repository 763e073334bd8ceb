-- ===== src/ByteCodec/Detail.antt =====
-- The namespace `ByteCodec::Detail`: bit patterns of integers and floats.
-- A type parameter of the templates is a value here: the size in bytes of an unsigned type, an
-- `IntType`, a `FloatType` or an `EnumType`. A value of an integer type is an integer, and `raw`
-- values of an unsigned type are numbers.
use zem.Base.{ℕ, suc, ◌+◌, ◌-◌, ◌*◌, ◌/◌, ◌%◌, ◌^◌, ◌<◌, ◌≡◌, Bool, true, false, arith}
use zem.Base.{ltb, if◌then◌else◌}
use zem.Base.Int.{ℤ, pos, negsuc}
use native.Mathlib.Numerals.{towards_suc}

-- How many values an unsigned type of `size` bytes has.
unfoldable pub modulus : ℕ → ℕ
modulus size = 2 ^ (size * 8)

pub modulus-suc : (n : ℕ) → modulus (suc n) ≡ modulus n * 256
unfolding modulus
modulus-suc n = rw (add_8 n) (simp towards_suc (grow (n * 8)))
  where
    add_8 : (n : ℕ) → suc n * 8 ≡ n * 8 + 8
    add_8 n = omega arith

    grow : (s : ℕ) → 2 ^ suc (suc (suc (suc (suc (suc (suc (suc s))))))) ≡ 2 ^ s * 256
    grow s = omega arith

-- `std::integral`, without `bool`.
pub record IntType : Type 0 where
  pub is_unsigned : Bool
  pub size : ℕ

-- `static_cast` to the unsigned type of `size` bytes: the value modulo `modulus size`.
abbrev pub static_cast : ℕ → ℤ → ℕ
static_cast size (pos n) = n % modulus size
static_cast size (negsuc n) = modulus size - 1 - n % modulus size

-- `std::bit_cast` from a signed type of `size` bytes: two's complement.
abbrev pub bit_cast : ℕ → ℤ → ℕ
bit_cast size (pos n) = n
bit_cast size (negsuc n) = modulus size - 1 - n

-- `std::bit_cast` back: a pattern with its top bit set is negative.
abbrev pub bit_cast_signed : ℕ → ℕ → ℤ
bit_cast_signed size raw =
    if ltb raw (modulus size / 2) then pos raw else negsuc (modulus size - 1 - raw)

unfoldable pub to_unsigned_bits : IntType → ℤ → ℕ
to_unsigned_bits t value = if t.is_unsigned then static_cast t.size value else bit_cast t.size value

unfoldable pub from_unsigned_bits : IntType → ℕ → ℤ
from_unsigned_bits t raw = if t.is_unsigned then pos raw else bit_cast_signed t.size raw

-- The values of an integer type.
abbrev pub IsInRange : Bool → ℕ → ℤ → Type 0
IsInRange true size (pos n) = n < modulus size
IsInRange true size (negsuc n) = ⊥
IsInRange false size (pos n) = n < modulus size / 2
IsInRange false size (negsuc n) = n < modulus size / 2

abbrev pub InRange : IntType → ℤ → Type 0
InRange t v = IsInRange t.is_unsigned t.size v

-- `std::floating_point` with an unsigned type of its size. The standard library's `std::bit_cast`
-- gives a value's object representation and takes it back.
pub record FloatType : Type 1 where
  pub Value : Type 0
  pub size : ℕ
  pub bits : Value → ℕ
  pub of_bits : ℕ → Value
  pub bits-lt : (v : Value) → bits v < modulus size
  pub of_bits-bits : (v : Value) → of_bits (bits v) ≡ v

-- A `std::is_enum` type with its underlying type, and the `static_cast` to that.
pub record EnumType : Type 1 where
  pub Value : Type 0
  pub underlying : IntType
  pub to_underlying : Value → ℤ
  pub to_underlying-InRange : (v : Value) → InRange underlying (to_underlying v)

-- The `static_cast` back, which only a reader needs.
pub record EnumCast (t : EnumType) : Type 0 where
  pub of_underlying : ℤ → t.Value
  pub of_underlying-to_underlying : (v : t.Value) → of_underlying (t.to_underlying v) ≡ v
