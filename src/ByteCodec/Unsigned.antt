-- ===== src/ByteCodec/Unsigned.antt =====
-- What `ReadUnsigned` and `WriteUnsigned` do, in terms of the big-endian digits of a number.
use zem.Base.{
  ℕ, zero, suc, ◌+◌, ◌-◌, ◌*◌, ◌/◌, ◌%◌, ◌^◌, ◌≤◌, ◌<◌, ◌≡◌, refl, sym, ap, ap₂, ◌∙◌, List, [], ◌∷◌,
  ◌++◌, append-nil, append_assoc, bit_or, arith, length, get_or, take, drop, All, bit_or-mul_256,
}
use native.Mathlib.Nat.{
  mod-eq_of_lt, mod-add-div', div-div-eq-div-mul, one-le-pow, mul-add-div_right, div-eq_of_lt,
}
use zem.ByteCodec.Detail.{modulus, modulus-suc}
use zem.ByteCodec.Reader.{read_bytes}
use zem.ByteCodec.Writer.{write_bytes, write_unsigned}

abbrev pub IsByte : ℕ → Type 0
IsByte b = b < 256

-- The `n` low bytes of a number, the highest first.
abbrev pub be_bytes : ℕ → ℕ → List ℕ
be_bytes zero v = []
be_bytes (suc n) v = (v / modulus n % 256) ∷ be_bytes n v

-- The number that bytes stand for, behind the digits `acc`.
abbrev pub be_value : ℕ → List ℕ → ℕ
be_value acc [] = acc
be_value acc (b ∷ bs) = be_value (acc * 256 + b) bs

pub modulus-zero : modulus 0 ≡ 1
unfolding modulus
modulus-zero = refl

pub modulus_pos : (n : ℕ) → 1 ≤ modulus n
unfolding modulus
modulus_pos n = one-le-pow (n * 8) 2 (omega arith)

pub length-be_bytes : (n v : ℕ) → length (be_bytes n v) ≡ n
length-be_bytes zero v = refl
length-be_bytes (suc n) v = ap suc (length-be_bytes n v)

pub be_bytes-IsByte : (n v : ℕ) → All IsByte (be_bytes n v)
be_bytes-IsByte zero v = tt
be_bytes-IsByte (suc n) v = (omega arith, be_bytes-IsByte n v)

-- The byte that round `i` shifts out.
digit :
    (size i n v : ℕ) → i + suc n ≡ size → v / 2 ^ ((size - 1 - i) * 8) % 256 ≡ v / modulus n % 256
unfolding modulus
digit size i n v h = ap (λ k. v / 2 ^ (k * 8) % 256) (omega arith)

write_bytes-be_bytes :
    (size v i n : ℕ) (p : List ℕ) → i + n ≡ size → write_bytes size v i n p ≡ p ++ be_bytes n v
unfolding write_bytes
write_bytes-be_bytes size v i zero p h = sym (append-nil p)
write_bytes-be_bytes size v i (suc n) p h =
    write_bytes-be_bytes size v (i + 1) n _ (omega arith)
    ∙ append_assoc p _ (be_bytes n v)
    ∙ ap (λ b. p ++ b ∷ be_bytes n v) (digit size i n v h)

-- `WriteUnsigned` appends the big-endian bytes of its value.
pub write_unsigned-be_bytes :
    (size v : ℕ) (p : List ℕ) → write_unsigned size v p ≡ p ++ be_bytes size v
unfolding write_unsigned
write_unsigned-be_bytes size v p = write_bytes-be_bytes size v 0 size p (omega arith)

-- The value that is being read leaves room for the `n` bytes to come.
abbrev Fits : ℕ → ℕ → ℕ → Type 0
Fits size n value = (value + 1) * modulus n ≤ modulus size

Fits-next : (size n value b : ℕ) → Fits size (suc n) value → b < 256 → Fits size n (value * 256 + b)
Fits-next size n value b h lt =
    let room : (value * 256 + b + 1) * modulus n ≤ (value + 1) * 256 * modulus n = grind arith in
    omega (arith, room, ap (λ (m : ℕ). (value + 1) * m) (modulus-suc n))

Fits-lt : (size n value : ℕ) → Fits size n value → value < modulus size
Fits-lt size n value h =
    let m = modulus_pos n in
    let one : (value + 1) * 1 ≤ (value + 1) * modulus n = grind arith in omega arith

-- One round of the read loop, on a byte, where the value still fits.
push_byte :
    (size n value b : ℕ)
    → Fits size (suc n) value
    → b < 256
    → bit_or (value * 256 % modulus size) b % modulus size ≡ value * 256 + b
push_byte size n value b h lt =
    ap (λ c. bit_or c b % modulus size) (mod-eq_of_lt (omega (arith, whole)))
    ∙ ap (λ c. c % modulus size) (bit_or-mul_256 value b lt)
    ∙ mod-eq_of_lt whole
  where
    whole : value * 256 + b < modulus size
    whole = Fits-lt size n (value * 256 + b) (Fits-next size n value b h lt)

get_or-IsByte : (xs : List ℕ) (i : ℕ) → All IsByte xs → get_or xs i 0 < 256
get_or-IsByte [] i h = omega arith
get_or-IsByte (x ∷ xs) zero h = h.0
get_or-IsByte (x ∷ xs) (suc i) h = get_or-IsByte xs i h.1

take_next :
    (xs : List ℕ) (at n : ℕ)
    → at < length xs
    → take (suc n) (drop at xs) ≡ get_or xs at 0 ∷ take n (drop (at + 1) xs)
take_next [] at n h = absurd (omega arith)
take_next (x ∷ xs) zero n h = refl
take_next (x ∷ xs) (suc at) n h =
    take_next xs at n (omega arith)
    ∙ ap (λ k. get_or xs at 0 ∷ take n (drop k (x ∷ xs))) {x = suc (at + 1)} (omega arith)

read_bytes-be_value :
    (size : ℕ) (payload : List ℕ) (at n value : ℕ)
    → All IsByte payload
    → at + n ≤ length payload
    → Fits size n value
    → read_bytes size payload at n value ≡ be_value value (take n (drop at payload))
unfolding read_bytes
read_bytes-be_value size payload at zero value bytes h fits = refl
read_bytes-be_value size payload at (suc n) value bytes h fits =
    let lt = get_or-IsByte payload at bytes in
    let next = value * 256 + get_or payload at 0 in
    ap (read_bytes size payload (at + 1) n) (push_byte size n value _ fits lt)
    ∙ read_bytes-be_value size payload (at + 1) n next bytes (omega arith)
        (Fits-next size n value _ fits lt)
    ∙ sym (ap (be_value value) (take_next payload at n (omega arith)))

-- On a payload of bytes `ReadUnsigned` computes the number that the next `size` bytes stand for.
pub read_bytes-value :
    (size : ℕ) (payload : List ℕ) (at : ℕ)
    → All IsByte payload
    → at + size ≤ length payload
    → read_bytes size payload at size 0 ≡ be_value 0 (take size (drop at payload))
read_bytes-value size payload at bytes h =
    read_bytes-be_value size payload at size 0 bytes h (omega arith)

-- A number below `modulus n * 256` is its highest byte and the rest.
two_digits :
    (v m q r d q' rest : ℕ)
    → r + q * m ≡ v
    → d + q' * 256 ≡ q
    → rest + q' * (m * 256) ≡ v
    → rest ≡ d * m + r
two_digits v m q r d q' rest lower upper both = omega (arith, ap (λ (t : ℕ). t * m) upper)

mod_split : (v m : ℕ) → v % (m * 256) ≡ v / m % 256 * m + v % m
mod_split v m =
    two_digits v m (v / m) (v % m) (v / m % 256) (v / m / 256) (v % (m * 256)) (mod-add-div' v m)
      (mod-add-div' (v / m) 256)
      (ap (λ t. v % (m * 256) + t * (m * 256)) (div-div-eq-div-mul v m 256)
        ∙ mod-add-div' v (m * 256))

be_value-be_bytes_from :
    (n acc v : ℕ) → be_value acc (be_bytes n v) ≡ acc * modulus n + v % modulus n
be_value-be_bytes_from zero acc v = rw modulus-zero (omega arith)
be_value-be_bytes_from (suc n) acc v = omega (
  arith,
  be_value-be_bytes_from n (acc * 256 + v / modulus n % 256) v,
  mod_split v (modulus n),
  ap (λ (t : ℕ). acc * t) (modulus-suc n),
  ap (λ (t : ℕ). v % t) (modulus-suc n),
)

pub be_value-be_bytes : (n v : ℕ) → v < modulus n → be_value 0 (be_bytes n v) ≡ v
be_value-be_bytes n v h = omega (arith, be_value-be_bytes_from n 0 v, mod-eq_of_lt h)

leading :
    (n acc b low : ℕ) {with_acc with_zero : ℕ}
    → with_acc ≡ (acc * 256 + b) * modulus n + low
    → with_zero ≡ (0 * 256 + b) * modulus n + low
    → low < modulus n
    → b < 256
    → (with_acc ≡ acc * modulus (suc n) + with_zero) × (with_zero < modulus (suc n))
leading n acc b low p q small byte =
    let top : b * modulus n ≤ 255 * modulus n = grind arith in
    (
      omega (arith, p, q, ap (λ (t : ℕ). acc * t) (modulus-suc n)),
      omega (arith, q, small, top, modulus-suc n),
    )

-- The value of bytes is below the modulus of their number, and what stands before them is added.
be_value_bounds :
    (acc : ℕ) (bs : List ℕ)
    → All IsByte bs
    → (be_value acc bs ≡ acc * modulus (length bs) + be_value 0 bs)
      × (be_value 0 bs < modulus (length bs))
be_value_bounds acc [] h = rw modulus-zero (omega arith)
be_value_bounds acc (b ∷ bs) h =
    leading (length bs) acc b (be_value 0 bs) (be_value_bounds (acc * 256 + b) bs h.1).0
      (be_value_bounds (0 * 256 + b) bs h.1).0 (be_value_bounds 0 bs h.1).1 h.0

pub be_value-lt : (bs : List ℕ) → All IsByte bs → be_value 0 bs < modulus (length bs)
be_value-lt bs h = (be_value_bounds 0 bs h).1

-- What stands above the `n` low bytes does not change them.
be_bytes-above : (n a v : ℕ) → be_bytes n (a * modulus n + v) ≡ be_bytes n v
be_bytes-above zero a v = refl
be_bytes-above (suc n) a v =
    ap (be_bytes (suc n)) regroup
    ∙ ap₂ ◌∷◌ (ap (λ t. t % 256) (mul-add-div_right (modulus_pos n) (a * 256) v) ∙ omega arith)
        (be_bytes-above n (a * 256) v)
  where
    regroup : a * modulus (suc n) + v ≡ a * 256 * modulus n + v
    regroup = omega (arith, ap (λ (t : ℕ). a * t) (modulus-suc n))

-- The big-endian bytes of the number that bytes stand for are those bytes.
pub be_bytes-be_value : (bs : List ℕ) → All IsByte bs → be_bytes (length bs) (be_value 0 bs) ≡ bs
be_bytes-be_value [] h = refl
be_bytes-be_value (b ∷ bs) h =
    let n = length bs in
    let low = be_value 0 bs in
    ap (be_bytes (suc n)) front
    ∙ ap₂ ◌∷◌ (ap (λ t. t % 256) (mul-add-div_right (modulus_pos n) b low) ∙ top)
        (be_bytes-above n b low ∙ be_bytes-be_value bs h.1)
  where
    front : be_value (0 * 256 + b) bs ≡ b * modulus (length bs) + be_value 0 bs
    front = omega (arith, (be_value_bounds (0 * 256 + b) bs h.1).0)

    top : (b + be_value 0 bs / modulus (length bs)) % 256 ≡ b
    top = omega (arith, div-eq_of_lt (be_value-lt bs h.1), h.0)
