-- ===== src/ByteCodec/Writer.antt =====
-- `ByteCodec::Writer`. It holds a reference to the vector that it appends to: a method takes the
-- vector's bytes and returns them changed, after the `bool` of one that can fail.
use zem.Base.{
  ℕ, zero, suc, ◌+◌, ◌-◌, ◌*◌, ◌/◌, ◌%◌, ◌^◌, Bool, true, false, List, [], ◌∷◌, ◌++◌, ltb,
  if◌then◌else◌, length,
}
use zem.Base.Int.{ℤ}
use zem.ByteCodec.Detail.{modulus, IntType, FloatType, EnumType, to_unsigned_bits}

-- The constructor; what it reserves is left to the vector.
abbrev pub make_writer : List ℕ → ℕ → List ℕ
make_writer payload reserve_additional = payload

-- The loop of `WriteUnsigned` with `n` rounds left, for a type of `size` bytes.
unfoldable pub write_bytes : ℕ → ℕ → ℕ → ℕ → List ℕ → List ℕ
write_bytes size value i zero payload = payload
write_bytes size value i (suc n) payload =
    write_bytes size value (i + 1) n (payload ++ (value / 2 ^ ((size - 1 - i) * 8) % 256 ∷ []))

unfoldable pub write_unsigned : ℕ → ℕ → List ℕ → List ℕ
unfolding write_bytes
write_unsigned size value payload = write_bytes size value 0 size payload

-- For a string and for a span: the length must fit the length type, and is cast to it.
unfoldable pub write_len_prefixed_bytes : ℕ → List ℕ → List ℕ → Bool × List ℕ
unfolding write_unsigned
write_len_prefixed_bytes length_size bytes payload =
    if ltb (modulus length_size - 1) (length bytes)
    then (false, payload)
    else (true, write_unsigned length_size (length bytes % modulus length_size) payload ++ bytes)

-- A vector is written as the span of its bytes.
unfoldable pub write_len_prefixed_vector : ℕ → List ℕ → List ℕ → Bool × List ℕ
unfolding write_len_prefixed_bytes
write_len_prefixed_vector length_size value payload =
    write_len_prefixed_bytes length_size value payload

unfoldable pub write_int : IntType → ℤ → List ℕ → Bool × List ℕ
unfolding write_unsigned to_unsigned_bits
write_int t value payload = (true, write_unsigned t.size (to_unsigned_bits t value) payload)

unfoldable pub write_float : (t : FloatType) → t.Value → List ℕ → Bool × List ℕ
unfolding write_unsigned
write_float t value payload = (true, write_unsigned t.size (t.bits value) payload)

unfoldable pub write_enum : (t : EnumType) → t.Value → List ℕ → Bool × List ℕ
unfolding write_unsigned to_unsigned_bits
write_enum t value payload = (
  true,
  write_unsigned t.underlying.size (to_unsigned_bits t.underlying (t.to_underlying value)) payload,
)
