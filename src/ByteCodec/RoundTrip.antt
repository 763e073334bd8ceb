-- ===== src/ByteCodec/RoundTrip.antt =====
-- What a `Writer` appends, a `Reader` that stands there reads back.
use zem.Base.{
  Bool, ℕ, zero, suc, ◌≤◌, ◌<◌, ◌≡◌, sym, ap, ◌∙◌, inl, inr, true, false, some, List, ◌++◌,
  append_assoc, arith, length, take, length-append, drop-append, All, All-append,
}
use zem.Base.Int.{ℤ, pos, negsuc}
use mathlib.Core.Path.{subst}
use native.Mathlib.Nat.{mod-eq_of_lt}
use zem.ByteCodec.Detail.{
  modulus, modulus-suc, IntType, FloatType, EnumType, EnumCast, InRange, to_unsigned_bits,
  from_unsigned_bits,
}
use zem.ByteCodec.Reader.{
  Reader, M, Overload, read_unsigned, read_len_prefixed, read_int, read_float, read_enum,
}
use zem.ByteCodec.Writer.{
  write_unsigned, write_len_prefixed_bytes, write_int, write_float, write_enum,
}
use zem.ByteCodec.Unsigned.{
  IsByte, be_bytes, be_value, be_value-be_bytes, be_bytes-IsByte, length-be_bytes,
  write_unsigned-be_bytes,
}
use zem.ByteCodec.Bounds.{IsValid, suffix, advance, read_unsigned_ok}
use zem.ByteCodec.LenPrefixed.{
  Parsed, len_prefixed, take-be_bytes, read_len_prefixed_complete, write_len_prefixed_bytes_lem,
}

-- A reader on `bytes` that stands behind `p`.
abbrev pub reader_after : List ℕ → List ℕ → Reader
reader_after p bytes = record { payload = bytes; offset = length p }

reader_after-IsValid :
    (p q : List ℕ) → All IsByte p → All IsByte q → IsValid (reader_after p (p ++ q))
reader_after-IsValid p q hp hq = record {
  within = omega (arith, length-append p q);
  bytes = All-append IsByte p q hp hq;
}

cast_back :
    (u : Bool) (size : ℕ) (v : ℤ)
    → 1 ≤ size
    → InRange (record { is_unsigned = u; size = size }) v
    → let t : IntType = record { is_unsigned = u; size = size } in
      (from_unsigned_bits t (to_unsigned_bits t v) ≡ v) × (to_unsigned_bits t v < modulus size)
unfolding from_unsigned_bits to_unsigned_bits
cast_back u zero v h r = absurd (omega arith)
cast_back true (suc n) (pos k) h r = (ap pos (mod-eq_of_lt r), rw (mod-eq_of_lt r) r)
cast_back true (suc n) (negsuc k) h r = absurd r
cast_back false (suc n) (pos k) h r = ground (arith, modulus-suc n)
cast_back false (suc n) (negsuc k) h r = ground (arith, modulus-suc n)

-- A value of an integer type of at least one byte survives the cast to unsigned bits and back, and its
-- bits are below 2 to the number of bits of the type.
pub from-to_unsigned_bits :
    (t : IntType) (v : ℤ)
    → 1 ≤ t.size
    → InRange t v
    → (from_unsigned_bits t (to_unsigned_bits t v) ≡ v) × (to_unsigned_bits t v < modulus t.size)
from-to_unsigned_bits t v h r = cast_back t.is_unsigned t.size v h r

module _ (p rest : List ℕ) (hp : All IsByte p) (hr : All IsByte rest) where
  read_be_bytes :
      (size v : ℕ)
      → v < modulus size
      → read_unsigned size (reader_after p (p ++ (be_bytes size v ++ rest)))
        ≡ (some v, advance (reader_after p (p ++ (be_bytes size v ++ rest))) size)
  read_be_bytes size v h =
      read_unsigned_ok size (reader_after p (p ++ tail)) valid room
      ∙ ap (λ n. (some n, advance (reader_after p (p ++ tail)) size)) value
    where
      tail : List ℕ
      tail = be_bytes size v ++ rest

      valid : IsValid (reader_after p (p ++ tail))
      valid =
          reader_after-IsValid p tail hp
            (All-append IsByte (be_bytes size v) rest (be_bytes-IsByte size v) hr)

      room : size ≤ length (suffix (reader_after p (p ++ tail)))
      room = omega (
        arith,
        ap length (drop-append p tail),
        length-append (be_bytes size v) rest,
        length-be_bytes size v,
      )

      value : be_value 0 (take size (suffix (reader_after p (p ++ tail)))) ≡ v
      value =
          ap (λ s. be_value 0 (take size s)) (drop-append p tail)
          ∙ ap (be_value 0) (take-be_bytes size v rest)
          ∙ be_value-be_bytes size v h

  -- `Reads m q a n`: at `q` behind `p`, `m` reads `a` and goes on by `n` bytes.
  abbrev pub Reads : {A : Type 0} → M A → List ℕ → A → ℕ → Type 0
  Reads m q a n = m (reader_after p q) ≡ (some a, advance (reader_after p q) n)

  pub read_unsigned-write_unsigned :
      (size v : ℕ)
      → v < modulus size
      → Reads (read_unsigned size) (write_unsigned size v p ++ rest) v size
  read_unsigned-write_unsigned size v h =
      subst (λ q. Reads (read_unsigned size) q v size) (sym written) (read_be_bytes size v h)
    where
      written : write_unsigned size v p ++ rest ≡ p ++ (be_bytes size v ++ rest)
      written =
          ap (λ s. s ++ rest) (write_unsigned-be_bytes size v p)
          ∙ append_assoc p (be_bytes size v) rest

  -- A reader that stands where a value of an integer type of at least one byte was written, between other bytes, reads it back
  -- and steps over exactly its bytes.
  pub read_int-write_int :
      (t : IntType) (v : ℤ)
      → 1 ≤ t.size
      → InRange t v
      → Reads (read_int t) ((write_int t v p).1 ++ rest) v t.size
  unfolding read_int write_int
  read_int-write_int t v h r =
      let (back, small) = from-to_unsigned_bits t v h r in
      rw (read_unsigned-write_unsigned t.size (to_unsigned_bits t v) small, back)

  -- A reader that stands where a float was written, between other bytes, reads it back and steps over
  -- exactly its bytes.
  pub read_float-write_float :
      (t : FloatType) (v : t.Value) → Reads (read_float t) ((write_float t v p).1 ++ rest) v t.size
  unfolding read_float write_float
  read_float-write_float t v =
      rw (read_unsigned-write_unsigned t.size (t.bits v) (t.bits-lt v), t.of_bits-bits v)

  -- A reader that stands where a value of an enum, of an underlying type of at least one byte, was written, between other bytes, reads it back and
  -- steps over as many bytes as the underlying type has.
  pub read_enum-write_enum :
      (t : EnumType) (cast : EnumCast t) (v : t.Value)
      → 1 ≤ t.underlying.size
      → Reads (read_enum t cast) ((write_enum t v p).1 ++ rest) v t.underlying.size
  unfolding read_enum write_enum
  read_enum-write_enum t cast v h =
      let u = t.underlying in
      let (back, small) =
        from-to_unsigned_bits u (t.to_underlying v) h (t.to_underlying-InRange v) in
      rw (
        read_unsigned-write_unsigned u.size (to_unsigned_bits u (t.to_underlying v)) small,
        back,
        cast.of_underlying-to_underlying v,
      )

  -- Bytes that `WriteLenPrefixed` accepts, with a length type of at most 8 bytes, are read back by
  -- every overload, and the reader then stands before what was written next.
  pub read_len_prefixed-write_bytes :
      (size : ℕ) (out : Overload) (x written : List ℕ)
      → size ≤ 8
      → All IsByte x
      → write_len_prefixed_bytes size x p ≡ (true, written)
      → Parsed (read_len_prefixed size out (reader_after p (written ++ rest))) x rest
  read_len_prefixed-write_bytes size out x written small hx e =
      elim (write_len_prefixed_bytes_lem size x p) [
        | inr (_, refused) ↦ cc
        | inl (fits, wrote) ↦
            let same : p ++ len_prefixed size x ≡ written = cc in
            let shape : p ++ (len_prefixed size x ++ rest) ≡ written ++ rest =
              sym (append_assoc p (len_prefixed size x) rest) ∙ ap (λ s. s ++ rest) same in
            let parses : Parsed
                (read_len_prefixed size out (reader_after p (p ++ (len_prefixed size x ++ rest)))) x
                rest =
              read_len_prefixed_complete size out _ (valid x hx size) small x rest fits
                (drop-append p (len_prefixed size x ++ rest)) in
            subst (λ q. Parsed (read_len_prefixed size out (reader_after p q)) x rest) shape parses
      ]
    where
      valid :
          (x : List ℕ)
          → All IsByte x
          → (size : ℕ) → IsValid (reader_after p (p ++ (len_prefixed size x ++ rest)))
      valid x hx size = reader_after-IsValid p (len_prefixed size x ++ rest) hp (
          All-append IsByte (len_prefixed size x) rest
            (All-append IsByte (be_bytes size (length x)) x (be_bytes-IsByte size (length x)) hx)
            hr)
