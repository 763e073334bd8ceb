-- ===== src/ByteCodec/LenPrefixed.antt =====
-- `ReadLenPrefixed` and `WriteLenPrefixed`: every branch, and what the one says of the other.
use zem.Base.{
  ◌%◌, ◌↔◌, ℕ, ◌+◌, ◌-◌, ◌≤◌, ◌<◌, ◌≡◌, sym, ap, ap₂, ◌∙◌, ◌⊎◌, inl, inr, true, false, Option, none,
  some, List, ◌++◌, append_assoc, arith, length, take, drop, ltb, Bool-cases, ltb→lt, ltb→le,
  le→ltb, length-take, length-drop, length-append, take-append, drop-append, take-append-drop, All,
  All-take, All-drop,
}
use mathlib.Core.Path.{subst, subst₂}
use native.Mathlib.Decide.{dec_le}
use native.Mathlib.Nat.{mod-eq_of_lt}
use zem.ByteCodec.Detail.{modulus}
use zem.ByteCodec.Reader.{Reader, Overload, read_payload, read_len_prefixed}
use zem.ByteCodec.Writer.{write_unsigned, write_len_prefixed_bytes}
use zem.ByteCodec.Unsigned.{
  IsByte, be_bytes, be_value, be_value-be_bytes, be_bytes-be_value, be_value-lt, length-be_bytes,
  modulus_pos, write_unsigned-be_bytes,
}
use zem.ByteCodec.Bounds.{
  IsValid, suffix, advance, advance-IsValid, suffix-advance, read_unsigned_ok, read_unsigned_short,
  read_payload_ok, read_payload_short,
}

-- The length that stands at the reader.
abbrev pub announced : ℕ → Reader → ℕ
announced size r = be_value 0 (take size (suffix r))

-- `| length | bytes |`
abbrev pub len_prefixed : ℕ → List ℕ → List ℕ
len_prefixed size bytes = be_bytes size (length bytes) ++ bytes

module _ (size : ℕ) (out : Overload) (r : Reader) (v : IsValid r) (small : size ≤ 8) where
  after_length :
      size ≤ length (suffix r)
      → read_len_prefixed size out r ≡ read_payload out (announced size r) (advance r size)
  unfolding read_len_prefixed
  after_length h = rw (read_unsigned_ok size r v h, le→ltb 8 size small)

  pub read_len_prefixed_no_length :
      length (suffix r) < size → read_len_prefixed size out r ≡ (none, r)
  unfolding read_len_prefixed
  read_len_prefixed_no_length h = rw (read_unsigned_short size r v h)

  pub read_len_prefixed_short :
      size ≤ length (suffix r)
      → length (suffix r) < size + announced size r
      → read_len_prefixed size out r ≡ (none, advance r size)
  read_len_prefixed_short h short =
      after_length h
      ∙ read_payload_short out (announced size r) (advance r size) (advance-IsValid r size v h)
          (omega (arith, ap length (suffix-advance r size), length-drop size (suffix r)))

  pub read_len_prefixed_ok :
      size + announced size r ≤ length (suffix r)
      → read_len_prefixed size out r ≡ (
        some (take (announced size r) (drop size (suffix r))),
        advance (advance r size) (announced size r),
      )
  read_len_prefixed_ok h =
      after_length (omega arith)
      ∙ read_payload_ok out (announced size r) (advance r size)
          (advance-IsValid r size v (omega arith))
          (omega (arith, ap length (suffix-advance r size), length-drop size (suffix r)))
      ∙ ap (λ s. (some (take (announced size r) s), advance (advance r size) (announced size r)))
          (suffix-advance r size)

pub take-be_bytes : (size v : ℕ) (ys : List ℕ) → take size (be_bytes size v ++ ys) ≡ be_bytes size v
take-be_bytes size v ys =
    ap (λ n. take n (be_bytes size v ++ ys)) (sym (length-be_bytes size v))
    ∙ take-append (be_bytes size v) ys

drop-be_bytes : (size v : ℕ) (ys : List ℕ) → drop size (be_bytes size v ++ ys) ≡ ys
drop-be_bytes size v ys =
    ap (λ n. drop n (be_bytes size v ++ ys)) (sym (length-be_bytes size v))
    ∙ drop-append (be_bytes size v) ys

same_outcome :
    {o : Option (List ℕ) × Reader} {x y : List ℕ} {r s : Reader}
    → o ≡ (some x, r)
    → o ≡ (some y, s)
    → (x ≡ y) × (r ≡ s)
same_outcome p q = (cc, cc)

-- How a reader that parsed `x` stands: before `rest`, still valid.
pub record Parsed (out : Option (List ℕ) × Reader) (x rest : List ℕ) : Type 0 where
  pub after : Reader
  pub result : out ≡ (some x, after)
  pub left : suffix after ≡ rest
  pub valid : IsValid after

module _ (size : ℕ) (out : Overload) (r : Reader) (v : IsValid r) (small : size ≤ 8) where
  pub read_len_prefixed_complete :
      (x rest : List ℕ)
      → length x < modulus size
      → suffix r ≡ len_prefixed size x ++ rest
      → Parsed (read_len_prefixed size out r) x rest
  read_len_prefixed_complete x rest fits e = record {
    after = advance (advance r size) n;
    result =
        read_len_prefixed_ok size out r v small room
        ∙ ap (λ s. (some s, advance (advance r size) n)) body;
    left = step ∙ ap (drop n) behind ∙ ap (λ k. drop k (x ++ rest)) length_is ∙ drop-append x rest;
    valid =
        advance-IsValid (advance r size) n (advance-IsValid r size v (omega (arith, room)))
          (omega (arith, room, ap length (suffix-advance r size), length-drop size (suffix r)));
  }
    where
      n : ℕ
      n = announced size r

      whole : suffix r ≡ be_bytes size (length x) ++ (x ++ rest)
      whole = e ∙ append_assoc (be_bytes size (length x)) x rest

      length_is : n ≡ length x
      length_is =
          ap (λ s. be_value 0 (take size s)) whole
          ∙ ap (be_value 0) (take-be_bytes size (length x) (x ++ rest))
          ∙ be_value-be_bytes size (length x) fits

      behind : drop size (suffix r) ≡ x ++ rest
      behind = ap (drop size) whole ∙ drop-be_bytes size (length x) (x ++ rest)

      room : size + n ≤ length (suffix r)
      room = omega (
        arith,
        length_is,
        ap length whole,
        length-append (be_bytes size (length x)) (x ++ rest),
        length-append x rest,
        length-be_bytes size (length x),
      )

      body : take n (drop size (suffix r)) ≡ x
      body = ap (take n) behind ∙ ap (λ k. take k (x ++ rest)) length_is ∙ take-append x rest

      step : suffix (advance (advance r size) n) ≡ drop n (drop size (suffix r))
      step = suffix-advance (advance r size) n ∙ ap (drop n) (suffix-advance r size)

  read_len_prefixed_cases :
      (read_len_prefixed size out r ≡ (none, r))
      ⊎ (read_len_prefixed size out r ≡ (none, advance r size))
      ⊎ (size + announced size r ≤ length (suffix r))
  read_len_prefixed_cases = elim (dec_le size (length (suffix r))) [
    | no short ↦ inl (read_len_prefixed_no_length size out r v small (omega arith))
    | yes has ↦ elim (dec_le (size + announced size r) (length (suffix r))) [
      | no short ↦ inr (inl (read_len_prefixed_short size out r v small has (omega arith)))
      | yes room ↦ inr (inr room)
    ]
  ]

  -- The bytes before the announced length, and as many as it says.
  split_ok :
      size + announced size r ≤ length (suffix r)
      → let x = take (announced size r) (drop size (suffix r)) in
        (length x ≡ announced size r)
        × (suffix r ≡ len_prefixed size x ++ drop (announced size r) (drop size (suffix r)))
        × (length x < modulus size)
  split_ok room = (same, shape, omega (arith, same, lt))
    where
      s : List ℕ
      s = suffix r

      n : ℕ
      n = announced size r

      x : List ℕ
      x = take n (drop size s)

      same : length x ≡ n
      same = omega (arith, length-take n (drop size s), length-drop size s)

      header_length : length (take size s) ≡ size
      header_length = omega (arith, length-take size s)

      header_bytes : All IsByte (take size s)
      header_bytes = All-take IsByte size s (All-drop IsByte r.offset r.payload v.bytes)

      lt : n < modulus size
      lt = subst (λ k. n < modulus k) header_length (be_value-lt (take size s) header_bytes)

      header : be_bytes size (length x) ≡ take size s
      header =
          ap (be_bytes size) same
          ∙ ap (λ k. be_bytes k n) (sym header_length)
          ∙ be_bytes-be_value (take size s) header_bytes

      shape : s ≡ len_prefixed size x ++ drop n (drop size s)
      shape =
          sym (take-append-drop size s)
          ∙ ap₂ ◌++◌ (sym header) (sym (take-append-drop n (drop size s)))
          ∙ sym (append_assoc (be_bytes size (length x)) x (drop n (drop size s)))

  -- What a successful read says of the bytes that it stood at.
  abbrev pub Took : List ℕ → Reader → Type 0
  Took x r' = (suffix r ≡ len_prefixed size x ++ suffix r') × (length x < modulus size) × IsValid r'

  Took-ok :
      size + announced size r ≤ length (suffix r)
      → Took
          (take (announced size r) (drop size (suffix r)))
          (advance (advance r size) (announced size r))
  Took-ok room =
      let (same, shape, lt) = split_ok room in
      let n = announced size r in
      let left : suffix (advance (advance r size) n) ≡ drop n (drop size (suffix r)) =
        suffix-advance (advance r size) n ∙ ap (drop n) (suffix-advance r size) in
      (
        shape ∙ ap (◌++◌ (len_prefixed size (take n (drop size (suffix r))))) (sym left),
        lt,
        advance-IsValid (advance r size) n (advance-IsValid r size v (omega arith))
            (omega (arith, ap length (suffix-advance r size), length-drop size (suffix r))),
      )

  pub read_len_prefixed_sound :
      (x : List ℕ) (r' : Reader) → read_len_prefixed size out r ≡ (some x, r') → Took x r'
  read_len_prefixed_sound x r' e = elim read_len_prefixed_cases [
    | inl none_read ↦ cc
    | inr (inl none_read) ↦ cc
    | inr (inr room) ↦
        let (same_x, same_r) = same_outcome (read_len_prefixed_ok size out r v small room) e in
        subst₂ Took same_x same_r (Took-ok room)
  ]

-- What `WriteLenPrefixed` does on either branch, whichever overload is called.
pub write_len_prefixed_bytes_lem :
    (size : ℕ) (x p : List ℕ)
    → ((length x < modulus size)
        × (write_len_prefixed_bytes size x p ≡ (true, p ++ len_prefixed size x)))
      ⊎ ((modulus size ≤ length x) × (write_len_prefixed_bytes size x p ≡ (false, p)))
unfolding write_len_prefixed_bytes
write_len_prefixed_bytes_lem size x p = elim (Bool-cases (ltb (modulus size - 1) (length x))) [
  | inl long ↦
      inr (omega (arith, ltb→lt (modulus size - 1) (length x) long, modulus_pos size), rw long)
  | inr fits ↦ inl (lt fits, rw fits (ap (λ b. (true, b)) (bytes (lt fits))))
]
  where
    lt : ltb (modulus size - 1) (length x) ≡ false → length x < modulus size
    lt h = omega (arith, ltb→le (modulus size - 1) (length x) h, modulus_pos size)

    bytes :
        length x < modulus size
        → write_unsigned size (length x % modulus size) p ++ x ≡ p ++ len_prefixed size x
    bytes h =
        ap (λ n. write_unsigned size n p ++ x) (mod-eq_of_lt h)
        ∙ ap (λ s. s ++ x) (write_unsigned-be_bytes size (length x) p)
        ∙ append_assoc p (be_bytes size (length x)) x

-- On a valid reader and a length type of at most 8 bytes, `ReadLenPrefixed` reads `x` and stops before
-- `rest` exactly when the bytes before it are the length of `x`, then `x`, then `rest`.
pub read_len_prefixed_iff :
    (size : ℕ) (out : Overload) (r : Reader)
    → IsValid r
    → size ≤ 8
    → (x rest : List ℕ)
    → Parsed (read_len_prefixed size out r) x rest
      ↔ ((length x < modulus size) × (suffix r ≡ len_prefixed size x ++ rest))
read_len_prefixed_iff size out r v small x rest = (
  λ p.
      let (shape, lt, _) = read_len_prefixed_sound size out r v small x p.after p.result in
      (lt, shape ∙ ap (◌++◌ (len_prefixed size x)) p.left),
  λ h. read_len_prefixed_complete size out r v small x rest h.0 h.1,
)
