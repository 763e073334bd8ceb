-- ===== src/ByteCodec/Public.antt =====
-- The public members of `Reader` and `Writer`: the templates that choose an overload by the type of their
-- argument. A template's argument with its type is a value of a `Scalar` or of a `Prefixed`.
use zem.Base.{sym, ℕ, ◌≤◌, ◌≡◌, refl, ◌∙◌, Bool, true, List, ◌++◌, All}
use zem.Base.Int.{ℤ}
use zem.ByteCodec.Detail.{IntType, FloatType, EnumType, EnumCast, InRange}
use zem.ByteCodec.Reader.{M, Overload, read_int, read_float, read_enum, read_len_prefixed}
use zem.ByteCodec.Writer.{
  write_int, write_float, write_enum, write_len_prefixed_bytes, write_len_prefixed_vector,
}
use zem.ByteCodec.Unsigned.{IsByte}
use zem.ByteCodec.LenPrefixed.{Parsed}
use zem.ByteCodec.RoundTrip.{
  Reads, reader_after, read_int-write_int, read_float-write_float, read_enum-write_enum,
  read_len_prefixed-write_bytes,
}

-- `Detail::IntegerLike`, `Detail::FloatingLike` and `Detail::EnumLike`.
pub data Scalar : Type 1 where
  integer : IntType → Scalar
  floating : FloatType → Scalar
  enumeration : (t : EnumType) → EnumCast t → Scalar

abbrev pub ValueOf : Scalar → Type 0
ValueOf (integer t) = ℤ
ValueOf (floating t) = t.Value
ValueOf (enumeration t c) = t.Value

abbrev pub size_of : Scalar → ℕ
size_of (integer t) = t.size
size_of (floating t) = t.size
size_of (enumeration t c) = t.underlying.size

-- `Reader::Read`
unfoldable pub read : (k : Scalar) → M (ValueOf k)
unfolding read_int read_float read_enum
read (integer t) = read_int t
read (floating t) = read_float t
read (enumeration t c) = read_enum t c

-- `Writer::Write`
unfoldable pub write : (k : Scalar) → ValueOf k → List ℕ → Bool × List ℕ
unfolding write_int write_float write_enum
write (integer t) value payload = write_int t value payload
write (floating t) value payload = write_float t value payload
write (enumeration t c) value payload = write_enum t value payload

-- `Detail::StringLike`, `Detail::ByteSpanLike`, and `std::vector<std::byte>`.
pub data Prefixed : Type 0 where
  string_like byte_span_like byte_vector : Prefixed

-- `Writer::WriteLenPrefixed`
unfoldable pub write_len_prefixed : Prefixed → ℕ → List ℕ → List ℕ → Bool × List ℕ
unfolding write_len_prefixed_vector
write_len_prefixed string_like length_size value payload =
    write_len_prefixed_bytes length_size value payload
write_len_prefixed byte_span_like length_size value payload =
    write_len_prefixed_bytes length_size value payload
write_len_prefixed byte_vector length_size value payload =
    write_len_prefixed_vector length_size value payload

-- A value that its type has: an integer in the range of a type of at least one byte.
abbrev pub IsWritable : (k : Scalar) → ValueOf k → Type 0
IsWritable (integer t) v = (1 ≤ t.size) × InRange t v
IsWritable (floating t) v = Unit {0}
IsWritable (enumeration t c) v = 1 ≤ t.underlying.size

pub write_len_prefixed_same :
    (source : Prefixed) (size : ℕ) (x p : List ℕ)
    → write_len_prefixed source size x p ≡ write_len_prefixed_bytes size x p
unfolding write_len_prefixed
write_len_prefixed_same string_like size x p = refl
write_len_prefixed_same byte_span_like size x p = refl
write_len_prefixed_same byte_vector size x p = refl

module _ (p rest : List ℕ) (hp : All IsByte p) (hr : All IsByte rest) where
  -- What `Write` appends of an integer, a float or an enumerator, between other bytes, `Read` gives back
  -- to a reader that stands there, and it steps over exactly the bytes of the type; an integer must be
  -- in the range of its type, and integers and enumerators have at least one byte.
  pub read-write :
      (k : Scalar) (v : ValueOf k)
      → IsWritable k v
      → Reads p rest hp hr (read k) ((write k v p).1 ++ rest) v (size_of k)
  unfolding read write
  read-write (integer t) v h = read_int-write_int p rest hp hr t v h.0 h.1
  read-write (floating t) v h = read_float-write_float p rest hp hr t v
  read-write (enumeration t c) v h = read_enum-write_enum p rest hp hr t c v h

  -- Bytes that `WriteLenPrefixed` accepts from a string, a span or a vector, with a length type of at most
  -- 8 bytes, are read back by `ReadLenPrefixed` into any of its outputs, and the reader then stands
  -- before what was written next.
  pub read_len_prefixed-write_len_prefixed :
      (source : Prefixed) (out : Overload) (size : ℕ) (x written : List ℕ)
      → size ≤ 8
      → All IsByte x
      → write_len_prefixed source size x p ≡ (true, written)
      → Parsed (read_len_prefixed size out (reader_after p (written ++ rest))) x rest
  read_len_prefixed-write_len_prefixed source out size x written small hx e =
      read_len_prefixed-write_bytes p rest hp hr size out x written small hx
        (sym (write_len_prefixed_same source size x p) ∙ e)
