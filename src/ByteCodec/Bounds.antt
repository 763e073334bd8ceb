-- ===== src/ByteCodec/Bounds.antt =====
-- Where a reader stands, and what each of its methods consumes.
use zem.Base.{
  ℕ, ◌+◌, ◌-◌, ◌≤◌, ◌<◌, ◌≡◌, sym, ap, ◌⊎◌, inl, inr, ◌↔◌, ==_iff, length_zero, true, false, none,
  some, List, [], arith, length, take, drop, Bool-cases, length-drop, drop-drop, drop-take,
  take_all, All,
}
use native.Mathlib.Decide.{dec_le}
use zem.ByteCodec.Reader.{
  Reader, Overload, span, vector, string_view, string, can_read, read_unsigned, read_payload,
  remaining, empty,
}
use zem.ByteCodec.Unsigned.{IsByte, be_value, read_bytes-value}

-- The reader does not stand past the end, and what it reads are bytes.
pub record IsValid (r : Reader) : Type 0 where
  pub within : r.offset ≤ length r.payload
  pub bytes : All IsByte r.payload

-- What is left to read.
abbrev pub suffix : Reader → List ℕ
suffix r = drop r.offset r.payload

abbrev pub advance : Reader → ℕ → Reader
advance r n = record r { offset = r.offset + n }

pub length-suffix : (r : Reader) → length (suffix r) ≡ length r.payload - r.offset
length-suffix r = length-drop r.offset r.payload

pub suffix-advance : (r : Reader) (n : ℕ) → suffix (advance r n) ≡ drop n (suffix r)
suffix-advance r n = sym (drop-drop r.offset n r.payload)

pub advance-IsValid :
    (r : Reader) (n : ℕ) → IsValid r → n ≤ length (suffix r) → IsValid (advance r n)
advance-IsValid r n v h = record {
  within = omega (arith, length-suffix r, v.within);
  bytes = v.bytes;
}

pub can_read-le : (r : Reader) (n : ℕ) → IsValid r → can_read r n ≡ true → n ≤ length (suffix r)
unfolding can_read
can_read-le r n v h = ground (arith, length-suffix r)

pub le-can_read : (r : Reader) (n : ℕ) → IsValid r → n ≤ length (suffix r) → can_read r n ≡ true
unfolding can_read
le-can_read r n v h = ground (arith, length-suffix r, v.within)

pub read_unsigned_ok :
    (size : ℕ) (r : Reader)
    → IsValid r
    → size ≤ length (suffix r)
    → read_unsigned size r ≡ (some (be_value 0 (take size (suffix r))), advance r size)
unfolding read_unsigned
read_unsigned_ok size r v h = rw (le-can_read r size v h) (
    ap (λ value. (some value, advance r size))
      (read_bytes-value size r.payload r.offset v.bytes (omega (arith, length-suffix r, v.within))))

pub read_unsigned_short :
    (size : ℕ) (r : Reader)
    → IsValid r
    → length (suffix r) < size
    → read_unsigned size r ≡ (none, r)
unfolding read_unsigned
read_unsigned_short size r v h = elim (Bool-cases (can_read r size)) [
  | inl can ↦ absurd (omega (arith, can_read-le r size v can))
  | inr cannot ↦ rw cannot
]

pub read_payload_ok :
    (out : Overload) (n : ℕ) (r : Reader)
    → IsValid r
    → n ≤ length (suffix r)
    → read_payload out n r ≡ (some (take n (suffix r)), advance r n)
unfolding read_payload
read_payload_ok span n r v h = rw (le-can_read r n v h)
read_payload_ok vector n r v h =
    rw (le-can_read r n v h) (ap (λ bs. (some bs, advance r n)) (drop-take r.offset n r.payload))
read_payload_ok string_view n r v h = rw (le-can_read r n v h)
read_payload_ok string n r v h =
    rw (le-can_read r n v h) (ap (λ bs. (some bs, advance r n)) (take_all (take n (suffix r))))

pub read_payload_short :
    (out : Overload) (n : ℕ) (r : Reader)
    → IsValid r
    → length (suffix r) < n
    → read_payload out n r ≡ (none, r)
unfolding read_payload
read_payload_short out n r v h = elim (Bool-cases (can_read r n)) [
  | inl can ↦ absurd (omega (arith, can_read-le r n v can))
  | inr cannot ↦ refuse out cannot
]
  where
    refuse : (out : Overload) → can_read r n ≡ false → read_payload out n r ≡ (none, r)
    refuse span e = rw e
    refuse vector e = rw e
    refuse string_view e = rw e
    refuse string e = rw e

-- Every overload of `ReadLenPrefixedPayload` does the same, whatever its type: if the bytes are there
-- it gives exactly those and steps over them, and otherwise it leaves the reader alone.
read_payload_lem :
    (out : Overload) (n : ℕ) (r : Reader)
    → IsValid r
    → ((n ≤ remaining r)
        × (read_payload out n r ≡ (some (take n (suffix r)), advance r n))
        × (remaining (advance r n) + n ≡ remaining r)
        × IsValid (advance r n))
      ⊎ ((remaining r < n) × (read_payload out n r ≡ (none, r)))
unfolding remaining
read_payload_lem out n r v = elim (dec_le n (length (suffix r))) [
  | yes h ↦ inl (
    omega (arith, length-suffix r),
    read_payload_ok out n r v h,
    omega (arith, length-suffix r),
    advance-IsValid r n v h,
  )
  | no h ↦ inr (omega (arith, length-suffix r), read_payload_short out n r v (omega arith))
]

-- `ReadUnsigned` gives the big-endian value of the next bytes and steps over them, or finds too few
-- and leaves the reader alone.
pub read_unsigned_lem :
    (size : ℕ) (r : Reader)
    → IsValid r
    → ((size ≤ remaining r)
        × (read_unsigned size r ≡ (some (be_value 0 (take size (suffix r))), advance r size))
        × IsValid (advance r size))
      ⊎ ((remaining r < size) × (read_unsigned size r ≡ (none, r)))
unfolding remaining
read_unsigned_lem size r v = elim (dec_le size (length (suffix r))) [
  | yes h ↦
      inl (omega (arith, length-suffix r), read_unsigned_ok size r v h, advance-IsValid r size v h)
  | no h ↦ inr (omega (arith, length-suffix r), read_unsigned_short size r v (omega arith))
]

-- `Empty` says that nothing is left.
pub empty_iff : (r : Reader) → IsValid r → (empty r ≡ true) ↔ (suffix r ≡ [])
unfolding empty
empty_iff r v = (
  λ e. length_zero (suffix r) (omega (arith, length-suffix r, (==_iff r.offset _).0 e)),
  λ e. (==_iff r.offset _).1 (omega (arith, length-suffix r, ap length e, v.within)),
)
