-- ===== src/ByteCodec/Reader.antt =====
-- `ByteCodec::Reader`. A method that returns `bool` and writes `out` returns an option beside the
-- reader that it leaves: `none` is `false`, with `out` as it was.
use zem.Base.{
  ℕ, zero, suc, ◌+◌, ◌-◌, ◌*◌, ◌%◌, ◌^◌, Bool, ◌&&◌, Option, none, some, List, bit_or, ltb, leb,
  ◌==◌, ◌≡◌, refl, if◌then◌else◌, length, get_or, take, drop,
}
use zem.ByteCodec.Detail.{modulus, IntType, FloatType, EnumType, EnumCast, from_unsigned_bits}
use zem.Base.Int.{ℤ}

-- A `std::span` or a `std::vector` of bytes is viewed in the same way by both constructors.
pub record Reader : Type 0 where
  pub payload : List ℕ
  pub offset : ℕ

abbrev pub from_span : List ℕ → Reader
from_span payload = record { payload = payload; offset = 0 }

abbrev pub M : Type 0 → Type 0
M A = Reader → Option A × Reader

abbrev pub continue {ℓ} :
    {A : Type 0} {B : Type ℓ}
    → (A → Reader → Option B × Reader)
    → Option A × Reader
    → Option B × Reader
continue f (none, r) = (none, r)
continue f (some a, r) = f a r

infixl 5 ◌>>=◌
abbrev pub ◌>>=◌ : {A B : Type 0} → M A → (A → M B) → M B
◌>>=◌ m f r = continue f (m r)

abbrev pub done : {A : Type 0} → A → M A
done a r = (some a, r)

abbrev pub fail : {A : Type 0} → M A
fail r = (none, r)

-- `sizeof(std::size_t)` on the 64-bit targets of the build.
abbrev pub size_t_size : ℕ
size_t_size = 8

abbrev pub size_t_max : ℕ
size_t_max = 2 ^ 64 - 1

unfoldable pub empty : Reader → Bool
empty r = r.offset == length r.payload

-- `Reader::Offset`
abbrev pub offset_of : Reader → ℕ
offset_of r = r.offset

unfoldable pub remaining : Reader → ℕ
remaining r = length r.payload - r.offset

-- `-` is not truncated here: it is read only where the first test holds.
unfoldable pub can_read : Reader → ℕ → Bool
can_read r n = leb r.offset (length r.payload) && leb n (length r.payload - r.offset)

-- The loop of `ReadUnsigned` with `n` rounds left, for a type of `size` bytes: both the shift and
-- the cast drop what does not fit. `CanRead` has made sure that every byte is there.
unfoldable pub read_bytes : ℕ → List ℕ → ℕ → ℕ → ℕ → ℕ
read_bytes size payload at zero value = value
read_bytes size payload at (suc n) value =
    read_bytes size payload (at + 1) n
      (bit_or (value * 256 % modulus size) (get_or payload at 0) % modulus size)

unfoldable pub read_unsigned : ℕ → M ℕ
unfolding read_bytes can_read
read_unsigned size r =
    if can_read r size
    then (some (read_bytes size r.payload r.offset size 0), record r { offset = r.offset + size })
    else (none, r)

-- `m_payload.subspan(m_offset, length)`.
unfoldable pub read_span : ℕ → M (List ℕ)
unfolding can_read
read_span n r =
    if can_read r n
    then (some (take n (drop r.offset r.payload)), record r { offset = r.offset + n })
    else (none, r)

-- `out.assign(begin + m_offset, begin + (m_offset + length))`.
unfoldable pub read_vector : ℕ → M (List ℕ)
unfolding can_read
read_vector n r =
    if can_read r n
    then (some (drop r.offset (take (r.offset + n) r.payload)), record r { offset = r.offset + n })
    else (none, r)

-- `std::string_view(data() + m_offset, length)`.
unfoldable pub read_string_view : ℕ → M (List ℕ)
unfolding can_read
read_string_view n r =
    if can_read r n
    then (some (take n (drop r.offset r.payload)), record r { offset = r.offset + n })
    else (none, r)

-- A view first, and then a copy of `tmp.size()` bytes from `tmp.data()`.
unfoldable pub read_string : ℕ → M (List ℕ)
unfolding can_read
read_string n r =
    let tmp = take n (drop r.offset r.payload) in
    if can_read r n
    then (some (take (length tmp) tmp), record r { offset = r.offset + n })
    else (none, r)

-- The overloads of `ReadLenPrefixedPayload`, selected by the type of `out`.
pub data Overload : Type 0 where
  span vector string_view string : Overload

unfoldable pub read_payload : Overload → ℕ → M (List ℕ)
unfolding read_span read_vector read_string_view read_string
read_payload span = read_span
read_payload vector = read_vector
read_payload string_view = read_string_view
read_payload string = read_string

-- `ReadLenPrefixed`. A length that was read stays read when the payload is too short for it.
unfoldable pub read_len_prefixed : ℕ → Overload → M (List ℕ)
unfolding read_unsigned read_payload
read_len_prefixed length_size out = do
  length ← read_unsigned length_size
  if ltb size_t_size length_size && ltb size_t_max length then fail else read_payload out length

unfoldable pub read_int : IntType → M ℤ
unfolding read_unsigned from_unsigned_bits
read_int t = do raw ← read_unsigned t.size; done (from_unsigned_bits t raw)

unfoldable pub read_float : (t : FloatType) → M t.Value
unfolding read_unsigned
read_float t = do raw ← read_unsigned t.size; done (t.of_bits raw)

unfoldable pub read_enum : (t : EnumType) → EnumCast t → M t.Value
unfolding read_unsigned from_unsigned_bits
read_enum t cast = do
  raw ← read_unsigned t.underlying.size
  done (cast.of_underlying (from_unsigned_bits t.underlying raw))

-- Inversion of a successful bind.
pub >>=-eq-some :
    {A B : Type 0} (m : M A) (f : A → M B) {b : B} {r r' : Reader}
    → (m >>= f) r ≡ (some b, r')
    → (a : A) × (s : Reader) × (m r ≡ (some a, s)) × (f a s ≡ (some b, r'))
>>=-eq-some {A} {B} m f {b} {r} {r'} h = split (m r) refl h
  where
    split :
        (o : Option A × Reader)
        → m r ≡ o
        → continue f o ≡ (some b, r')
        → (a : A) × (s : Reader) × (m r ≡ (some a, s)) × (f a s ≡ (some b, r'))
    split (none, s) e k = cc
    split (some a, s) e k = (a, s, e, k)
