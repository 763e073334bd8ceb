-- ===== src/Login/Decoding.antt =====
-- Which payloads are login requests.
use zem.Base.{
  ℕ, ◌<◌, ◌≡◌, ◌≢◌, refl, sym, ap, ◌∙◌, ◌↔◌, inl, inr, Option, none, some, List, [], ◌++◌,
  append-nil, ==_iff, Bool-cases, arith, length, All,
}
use mathlib.Core.Path.{subst}
use native.Mathlib.Decide.{ℕ_discrete}
use zem.ByteCodec.Detail.{modulus}
use zem.ByteCodec.Reader.{
  Reader, M, done, ◌>>=◌, >>=-eq-some, from_span, empty, read_len_prefixed, string_view,
}
use zem.ByteCodec.Unsigned.{IsByte}
use zem.ByteCodec.Bounds.{IsValid, suffix, empty_iff}
use zem.ByteCodec.LenPrefixed.{len_prefixed, read_len_prefixed_complete, read_len_prefixed_sound}
use zem.Protocol.ApiVersion.{v1}
use zem.Login.{LoginRequestDto}
use zem.Login.V1
use zem.Login.V1.{expect_end, read_request}
use zem.Login.Codec
use zem.Login.Codec.{to_common}

-- `| Id Length | Id | Pw Length | Pw |`
abbrev pub request_bytes : LoginRequestDto → List ℕ
request_bytes dto = len_prefixed 4 dto.id ++ len_prefixed 4 dto.password

-- Both parts fit a `uint32_t` length.
pub record FitsLengths (dto : LoginRequestDto) : Type 0 where
  pub id : length dto.id < modulus 4
  pub password : length dto.password < modulus 4

from_span-IsValid : (payload : List ℕ) → All IsByte payload → IsValid (from_span payload)
from_span-IsValid payload h = record { within = omega arith; bytes = h }

expect_end_ok : (r : Reader) → IsValid r → suffix r ≡ [] → expect_end r ≡ (some tt, r)
unfolding expect_end
expect_end_ok r v e = rw ((empty_iff r v).1 e)

refused :
    {P : Type 0} {r r' : Reader} → ◌≡◌ {A = Option (Unit {0}) × Reader} (none, r) (some tt, r') → P
refused e = cc

expect_end-some : (r r' : Reader) → IsValid r → expect_end r ≡ (some tt, r') → suffix r ≡ []
unfolding expect_end
expect_end-some r r' v e = elim (Bool-cases (empty r)) [
  | inl at_end ↦ (empty_iff r v).0 at_end
  | inr more ↦ refused (rw more at e)
]

first_of : {A : Type 0} (o : Option A × Reader) (a : A) → o.0 ≡ some a → o ≡ (some a, o.1)
first_of (x, r) a e = ap (λ y. (y, r)) e

none-some : {a : LoginRequestDto} → none ≡ some a → ⊥
none-some e = cc

same_dto :
    {a b : V1.LoginRequestDto} {r s : Reader}
    → ◌≡◌ {A = Option V1.LoginRequestDto × Reader} (some a, r) (some b, s)
    → a ≡ b
same_dto e = cc

-- The two records have the same fields.
abbrev common : V1.LoginRequestDto → LoginRequestDto
common dto = record { id = dto.id; password = dto.password }

abbrev of_v1 : LoginRequestDto → V1.LoginRequestDto
of_v1 dto = record { id = dto.id; password = dto.password }

-- What follows the identifier, and what follows the password.
abbrev after_password : List ℕ → List ℕ → M V1.LoginRequestDto
after_password id pw = do done_reading ← expect_end; done (record { id = id; password = pw })

abbrev after_id : List ℕ → M V1.LoginRequestDto
after_id id = do pw ← read_len_prefixed 4 string_view; after_password id pw

read_request_sound :
    (r r' : Reader) (dto : V1.LoginRequestDto)
    → IsValid r
    → read_request r ≡ (some dto, r')
    → FitsLengths (common dto) × (suffix r ≡ request_bytes (common dto))
unfolding read_request
read_request_sound r r' dto v e =
    let (id, s, got_id, rest_id) = >>=-eq-some (read_len_prefixed 4 string_view) after_id e in
    let (pw, t, got_pw, rest_pw) =
      >>=-eq-some (read_len_prefixed 4 string_view) (after_password id) rest_id in
    let (u, x, at_end, result) =
      >>=-eq-some expect_end (λ _. done (record { id = id; password = pw })) rest_pw in
    let (shape_id, fits_id, valid_s) =
      read_len_prefixed_sound 4 string_view r v (omega arith) id s got_id in
    let (shape_pw, fits_pw, valid_t) =
      read_len_prefixed_sound 4 string_view s valid_s (omega arith) pw t got_pw in
    let nothing_left = expect_end-some t x valid_t at_end in
    let shape : suffix r ≡ len_prefixed 4 id ++ len_prefixed 4 pw =
      shape_id
      ∙ ap (◌++◌ (len_prefixed 4 id)) (
          shape_pw ∙ ap (◌++◌ (len_prefixed 4 pw)) nothing_left ∙ append-nil (len_prefixed 4 pw)) in
    subst (λ d. FitsLengths (common d) × (suffix r ≡ request_bytes (common d))) (same_dto result)
      (record { id = fits_id; password = fits_pw }, shape)

read_request_complete :
    (r : Reader) (dto : LoginRequestDto)
    → IsValid r
    → FitsLengths dto
    → suffix r ≡ request_bytes dto
    → (read_request r).0 ≡ some (of_v1 dto)
unfolding read_request
read_request_complete r dto v fits e =
    let id =
      read_len_prefixed_complete 4 string_view r v (omega arith) dto.id
        (len_prefixed 4 dto.password) fits.id e in
    let pw =
      read_len_prefixed_complete 4 string_view id.after id.valid (omega arith) dto.password []
        fits.password (id.left ∙ sym (append-nil (len_prefixed 4 dto.password))) in
    rw (id.result, pw.result, expect_end_ok pw.after pw.valid pw.left)

to_common-some :
    (o : Option V1.LoginRequestDto) (dto : LoginRequestDto)
    → to_common o ≡ some dto
    → o ≡ some (of_v1 dto)
unfolding to_common
to_common-some none dto e = cc
to_common-some (some d) dto e = ap (λ x. some (of_v1 x)) (same_common e)
  where
    same_common : some (common d) ≡ some dto → common d ≡ dto
    same_common h = cc

-- Nothing is lost there and back.
of_v1-to_common : (dto : LoginRequestDto) → to_common (some (of_v1 dto)) ≡ some dto
unfolding to_common
of_v1-to_common dto = refl

decode_at_v1 :
    (api_version : ℕ) (payload : List ℕ)
    → api_version ≡ v1
    → Codec.decode_request api_version payload ≡ to_common (V1.decode_request payload)
unfolding Codec.decode_request
decode_at_v1 api_version payload e = rw ((==_iff api_version v1).1 e)

pub decode_elsewhere :
    (api_version : ℕ) (payload : List ℕ)
    → api_version ≢ v1
    → Codec.decode_request api_version payload ≡ none
unfolding Codec.decode_request
decode_elsewhere api_version payload ne = ground arith

-- A payload of bytes decodes to a request, at version 1 and no other, exactly when it consists of
-- the identifier and the password, each behind its length in four bytes, and of nothing else.
pub decode_request_iff :
    (api_version : ℕ) (payload : List ℕ)
    → All IsByte payload
    → (dto : LoginRequestDto)
    → (Codec.decode_request api_version payload ≡ some dto)
      ↔ ((api_version ≡ v1) × FitsLengths dto × (payload ≡ request_bytes dto))
unfolding V1.decode_request
decode_request_iff api_version payload bytes dto = (
  λ e. elim (ℕ_discrete api_version v1) [
    | yes at_v1 ↦
        let (fits, shape) =
          read_request_sound (from_span payload) _ (of_v1 dto) (from_span-IsValid payload bytes) (
            first_of (read_request (from_span payload)) (of_v1 dto)
              (to_common-some _ dto (sym (decode_at_v1 api_version payload at_v1) ∙ e))) in
        (at_v1, fits, shape)
    | no other ↦ absurd (none-some (sym (decode_elsewhere api_version payload other) ∙ e))
  ],
  λ h.
      decode_at_v1 api_version payload h.0
      ∙ ap to_common
          (read_request_complete (from_span payload) dto (from_span-IsValid payload bytes) h.1 h.2)
      ∙ of_v1-to_common dto,
)
