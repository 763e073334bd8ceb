-- ===== src/Login/Runs.antt =====
-- A login at concrete inputs: one account, `a` with the password `b`.
use zem.Base.{
  ℕ, ◌+◌, ◌≡◌, ◌≢◌, refl, ◌⊎◌, ◌↔◌, true, none, some, List, [], ◌∷◌, arith, length, if◌then◌else◌,
  All, bytes_eq,
}
use zem.ByteCodec.Detail.{modulus}
use zem.ByteCodec.Unsigned.{IsByte, be_bytes, be_value}
use zem.ByteCodec.LenPrefixed.{len_prefixed}
use zem.Protocol.{send, login}
use zem.Protocol.ApiVersion.{v1}
use zem.Login.{success, LoginRequestDto, AccountRepository, LoginPort, code}
use zem.Login.Codec
use zem.Login.UseCase.{make_login_use_case, login_use_case}
use zem.Login.Handler.{make_login_handler, handle}
use zem.Login.Decoding.{FitsLengths, request_bytes, decode_request_iff}
use zem.Login.Answers.{verdict_on, encode_response_lem, encode_response_has_no_length, handle_lem}

-- Its world counts the questions.
abbrev accounts : AccountRepository ℕ
accounts = record {
  get_password = λ id w. (if bytes_eq id (97 ∷ []) then some (98 ∷ []) else none, w + 1);
}

abbrev dto : LoginRequestDto
dto = record { id = 97 ∷ []; password = 98 ∷ [] }

abbrev bytes : List ℕ
bytes = 0 ∷ 0 ∷ 0 ∷ 1 ∷ 97 ∷ 0 ∷ 0 ∷ 0 ∷ 1 ∷ 98 ∷ []

bytes-IsByte : All IsByte bytes
bytes-IsByte = ground arith

request-IsByte : All IsByte (request_bytes dto)
unfolding modulus
request-IsByte = ground arith

dto-FitsLengths : FitsLengths dto
unfolding modulus
dto-FitsLengths = record { id = omega arith; password = omega arith }

response : Codec.encode_response v1 success ≡ some (be_bytes 4 0)
response = encode_response_lem v1 success

decode_request_iff_example :
    (Codec.decode_request 1 bytes ≡ some dto)
    ↔ ((1 ≡ v1) × FitsLengths dto × (bytes ≡ request_bytes dto))
decode_request_iff_example = decode_request_iff 1 bytes bytes-IsByte dto

encode_response_has_no_length_example :
    (be_value 0 (be_bytes 4 0) ≡ code success)
    × (length (be_bytes 4 0) ≡ 4)
    × (be_bytes 4 0 ≢ len_prefixed 4 (0 ∷ 0 ∷ 0 ∷ 0 ∷ []))
encode_response_has_no_length_example =
    encode_response_has_no_length success (be_bytes 4 0) (0 ∷ 0 ∷ 0 ∷ 0 ∷ []) response refl

abbrev port : LoginPort ℕ
port = login_use_case (make_login_use_case accounts)

handle_lem_example :
    ((d : LoginRequestDto) × (1 ≡ v1)
      × (bytes ≡ request_bytes d)
      × (handle (make_login_handler (some port)) true 1 (some bytes) 0 ≡ (
        send login (some (be_bytes 4 (code (verdict_on port d 0).0))) 1 ∷ [],
        (verdict_on port d 0).1,
      )))
    ⊎ (¬ ((d : LoginRequestDto) × FitsLengths d × (1 ≡ v1) × (bytes ≡ request_bytes d))
        × (handle (make_login_handler (some port)) true 1 (some bytes) 0 ≡ ([], 0)))
handle_lem_example = handle_lem port 1 bytes 0 bytes-IsByte
