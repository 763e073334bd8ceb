-- ===== src/ByteCodec/Runs.antt =====
-- The codec at concrete inputs.
use zem.Base.{
  ℕ, zero, suc, All, ◌<◌, ◌≡◌, refl, ◌↔◌, Bool, true, false, some, List, [], ◌∷◌, ◌++◌, arith,
  length,
}
use zem.Base.Int.{ℤ, pos, negsuc}
use zem.ByteCodec.Detail.{modulus, IntType, FloatType, EnumType, EnumCast, InRange}
use zem.ByteCodec.Reader.{
  Reader, from_span, span, string, read_unsigned, read_bytes, read_string, can_read, read_payload,
  read_len_prefixed,
}
use zem.ByteCodec.Writer.{write_unsigned, write_bytes, write_len_prefixed_bytes}
use zem.ByteCodec.Unsigned.{IsByte}
use zem.ByteCodec.Bounds.{IsValid, suffix}
use zem.ByteCodec.LenPrefixed.{len_prefixed, Parsed, read_len_prefixed_iff}
use zem.ByteCodec.Public.{
  integer, read, write, string_like, write_len_prefixed, read-write,
  read_len_prefixed-write_len_prefixed,
}
use zem.ByteCodec.RoundTrip.{Reads, reader_after}

abbrev five : Reader
five = from_span (0 ∷ 2 ∷ 65 ∷ 66 ∷ 67 ∷ [])

five-IsValid : IsValid five
five-IsValid = record { within = omega arith; bytes = ground arith }

abbrev int16 : IntType
int16 = record { is_unsigned = false; size = 2 }

minus_two-InRange : InRange int16 (negsuc 1)
unfolding modulus
minus_two-InRange = omega arith

-- A float type with the two values +0 and -0.
sign_bits-lt : (negative : Bool) → (elim negative [ true ↦ 32768 | false ↦ 0 ]) < modulus 2
unfolding modulus
sign_bits-lt true = omega arith
sign_bits-lt false = omega arith

abbrev of_sign_bits : ℕ → Bool
of_sign_bits n = elim n [ zero ↦ false | suc m ↦ true ]

sign-bits : (b : Bool) → of_sign_bits (elim b [ true ↦ 32768 | false ↦ 0 ]) ≡ b
sign-bits true = refl
sign-bits false = refl

abbrev zeros : FloatType
zeros = record {
  Value = Bool;
  size = 2;
  bits = λ b. elim b [ true ↦ 32768 | false ↦ 0 ];
  of_bits = of_sign_bits;
  bits-lt = sign_bits-lt;
  of_bits-bits = sign-bits;
}

bool-InRange : (b : Bool) → InRange int16 (pos (elim b [ true ↦ 1 | false ↦ 0 ]))
unfolding modulus
bool-InRange true = omega arith
bool-InRange false = omega arith

abbrev flags : EnumType
flags = record {
  Value = Bool;
  underlying = int16;
  to_underlying = λ b. pos (elim b [ true ↦ 1 | false ↦ 0 ]);
  to_underlying-InRange = bool-InRange;
}

abbrev of_int : ℤ → Bool
of_int z = elim z [ pos n ↦ of_sign_bits n | negsuc n ↦ true ]

of_int-flag : (b : Bool) → of_int (pos (elim b [ true ↦ 1 | false ↦ 0 ])) ≡ b
of_int-flag true = refl
of_int-flag false = refl

abbrev flags_cast : EnumCast flags
flags_cast = record { of_underlying = of_int; of_underlying-to_underlying = of_int-flag }

abbrev ab : List ℕ
ab = 65 ∷ 66 ∷ []

abbrev seven : List ℕ
seven = 7 ∷ []

abbrev eight : List ℕ
eight = 8 ∷ []

seven-IsByte : All IsByte seven
seven-IsByte = ground arith

eight-IsByte : All IsByte eight
eight-IsByte = ground arith

two_read : read_len_prefixed 2 string five ≡ (some (65 ∷ 66 ∷ []), record five { offset = 4 })
unfolding read_len_prefixed read_unsigned read_bytes read_payload read_string can_read modulus
two_read = refl

read_len_prefixed_iff_example :
    Parsed (read_len_prefixed 2 span five) ab (67 ∷ [])
    ↔ ((length ab < modulus 2) × (suffix five ≡ len_prefixed 2 ab ++ 67 ∷ []))
read_len_prefixed_iff_example =
    read_len_prefixed_iff 2 span five five-IsValid (omega arith) ab (67 ∷ [])

read-write_example :
    Reads seven eight seven-IsByte eight-IsByte
      (read (integer int16))
      ((write (integer int16) (negsuc 1) seven).1 ++ eight)
      (negsuc 1)
      2
read-write_example =
    read-write seven eight seven-IsByte eight-IsByte (integer int16) (negsuc 1)
      (omega arith, minus_two-InRange)

string_written : write_len_prefixed string_like 1 (65 ∷ []) seven ≡ (true, 7 ∷ 1 ∷ 65 ∷ [])
unfolding write_len_prefixed write_len_prefixed_bytes write_unsigned write_bytes modulus
string_written = refl

read_len_prefixed-write_len_prefixed_example :
    Parsed
      (read_len_prefixed 1 string (reader_after seven ((7 ∷ 1 ∷ 65 ∷ []) ++ eight)))
      (65 ∷ [])
      eight
read_len_prefixed-write_len_prefixed_example =
    read_len_prefixed-write_len_prefixed seven eight seven-IsByte eight-IsByte string_like string 1
      (65 ∷ []) (7 ∷ 1 ∷ 65 ∷ []) (omega arith) (ground arith) string_written
