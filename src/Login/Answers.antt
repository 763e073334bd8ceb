-- ===== src/Login/Answers.antt =====
-- What the login service answers.
use zem.Base.{
  ℕ, ◌<◌, ◌≡◌, ◌≢◌, refl, sym, ap, ◌∙◌, ◌⊎◌, ◌↔◌, inl, inr, Bool, true, false, Option, none, some,
  List, [], ◌∷◌, ◌==◌, if◌then◌else◌, Option-cases, arith, length, bytes_eq, bytes_eq→eq,
  bytes_eq_refl, All, length-append,
}
use mathlib.Core.Path.{subst}
use zem.Base.Int.{pos}
use zem.ByteCodec.Detail.{modulus, to_unsigned_bits}
use zem.ByteCodec.Unsigned.{
  IsByte, be_bytes, be_value, be_value-be_bytes, length-be_bytes, write_unsigned-be_bytes,
}
use zem.ByteCodec.LenPrefixed.{len_prefixed}
use zem.ByteCodec.Writer.{write_enum}
use zem.Protocol.{send, login}
use zem.Protocol.ApiVersion.{v1}
use zem.Login.{
  LoginResult, success, invalid_credentials, account_locked, LoginRequestDto, AccountRepository,
  LoginPort, code, uint32,
}
use zem.Login.V1
use zem.Login.Codec
use zem.Login.UseCase.{make_login_use_case, matches, validate_credentials, login_use_case}
use zem.Login.Handler.{make_login_handler, handle_with, respond, answer, handle}
use zem.Login.Decoding.{FitsLengths, request_bytes, decode_request_iff}

none-some : {a : LoginRequestDto} → none ≡ some a → ⊥
none-some e = cc

code-lt : (r : LoginResult) → code r < modulus 4
unfolding modulus
code-lt success = omega arith
code-lt invalid_credentials = omega arith
code-lt account_locked = omega arith

code-bits : (r : LoginResult) → to_unsigned_bits uint32 (pos (code r)) ≡ code r
unfolding to_unsigned_bits modulus
code-bits success = refl
code-bits invalid_credentials = refl
code-bits account_locked = refl

-- At version 1 the response body is the result code in four big-endian bytes, and at any other version
-- there is none.
pub encode_response_lem :
    (api_version : ℕ) (r : LoginResult)
    → Codec.encode_response api_version r
      ≡ (if api_version == v1 then some (be_bytes 4 (code r)) else none)
unfolding Codec.encode_response V1.encode_response write_enum
encode_response_lem api_version r =
    ap (λ b. if api_version == v1 then some b else none)
      (write_unsigned-be_bytes 4 (to_unsigned_bits uint32 (pos (code r))) []
        ∙ ap (be_bytes 4) (code-bits r))

respond_at_v1 :
    (r : LoginResult) → respond true v1 r ≡ send login (some (be_bytes 4 (code r))) v1 ∷ []
unfolding respond
respond_at_v1 r = rw (encode_response_lem v1 r, respond)

-- A body that a response has at version 1 is four bytes, which stand for the result code, and is not a
-- four-byte length followed by any four bytes of content.
pub encode_response_has_no_length :
    (r : LoginResult) (body content : List ℕ)
    → Codec.encode_response v1 r ≡ some body
    → length content ≡ 4
    → (be_value 0 body ≡ code r) × (length body ≡ 4) × (body ≢ len_prefixed 4 content)
encode_response_has_no_length r body content e h =
    let same : be_bytes 4 (code r) ≡ body = some_same (sym (encode_response_lem v1 r) ∙ e) in
    (
      ap (be_value 0) (sym same) ∙ be_value-be_bytes 4 (code r) (code-lt r),
      ap length (sym same) ∙ length-be_bytes 4 (code r),
      λ eq. omega (
        arith,
        ap length same,
        length-be_bytes 4 (code r),
        ap length eq,
        length-append (be_bytes 4 (length content)) content,
        length-be_bytes 4 (length content),
      ),
    )
  where
    some_same : {x y : List ℕ} → some x ≡ some y → x ≡ y
    some_same q = cc

matches_iff :
    (stored : Option (List ℕ)) (password : List ℕ)
    → (matches stored password ≡ true) ↔ (stored ≡ some password)
unfolding matches
matches_iff none password = (λ e. cc, λ e. cc)
matches_iff (some stored) password = (
  λ e. ap some (bytes_eq→eq stored password e),
  λ e.
      let same : stored ≡ password = cc in
      ap (λ s. bytes_eq s password) same ∙ bytes_eq_refl password,
)

verdict :
    (b : Bool)
    → (((if b then success else invalid_credentials) ≡ success) ↔ (b ≡ true))
      × (((if b then success else invalid_credentials) ≡ success)
          ⊎ ((if b then success else invalid_credentials) ≡ invalid_credentials))
verdict true = ((λ e. refl, λ e. refl), inl refl)
verdict false = ((λ e. cc, λ e. cc), inr refl)

module _ {World : Type 0} (repo : AccountRepository World) where
  -- A login succeeds exactly when the repository has a password for the identifier and it is the one
  -- that was given; any other answer is `InvalidCredentials`. The repository is asked once.
  pub validate_credentials_lem :
      (id password : List ℕ) (w : World)
      → let (result, w') = validate_credentials repo id password w in
        ((result ≡ success) ↔ ((repo.get_password id w).0 ≡ some password))
        × ((result ≡ success) ⊎ (result ≡ invalid_credentials))
        × (w' ≡ (repo.get_password id w).1)
  unfolding validate_credentials
  validate_credentials_lem id password w =
      let stored = (repo.get_password id w).0 in
      let (iff, one_of) = verdict (matches stored password) in
      let same = matches_iff stored password in
      ((λ e. same.0 (iff.0 e), λ e. iff.1 (same.1 e)), one_of, refl)

module _ {World : Type 0} (usecase : LoginPort World) where
  -- The use case's answer to a request, and the world after it.
  abbrev pub verdict_on : LoginRequestDto → World → LoginResult × World
  verdict_on dto w = usecase.validate_credentials dto.id dto.password w

  handle_request :
      (dto : LoginRequestDto) (payload : List ℕ) (w : World)
      → Codec.decode_request v1 payload ≡ some dto
      → handle (make_login_handler (some usecase)) true v1 (some payload) w
        ≡ (send login (some (be_bytes 4 (code (verdict_on dto w).0))) v1 ∷ [], (verdict_on dto w).1)
  unfolding handle handle_with answer
  handle_request dto payload w e =
      rw e (ap (λ c. (c, (verdict_on dto w).1)) (respond_at_v1 (verdict_on dto w).0))

  handle_no_request :
      (api_version : ℕ) (payload : List ℕ) (w : World)
      → Codec.decode_request api_version payload ≡ none
      → handle (make_login_handler (some usecase)) true api_version (some payload) w ≡ ([], w)
  unfolding handle handle_with answer
  handle_no_request api_version payload w e = rw e

  -- On a payload of bytes and with a connection, the handler asks the use case and sends one `Login` frame, of the request's version
  -- and with the result code as its body, if the payload is a request of version 1; otherwise it
  -- sends nothing and the use case is not asked.
  pub handle_lem :
      (api_version : ℕ) (payload : List ℕ) (w : World)
      → All IsByte payload
      → ((dto : LoginRequestDto) × (api_version ≡ v1)
          × (payload ≡ request_bytes dto)
          × (handle (make_login_handler (some usecase)) true api_version (some payload) w ≡ (
            send login (some (be_bytes 4 (code (verdict_on dto w).0))) api_version ∷ [],
            (verdict_on dto w).1,
          )))
        ⊎ (¬ (
              (dto : LoginRequestDto) × FitsLengths dto
              × (api_version ≡ v1)
              × (payload ≡ request_bytes dto))
            × (handle (make_login_handler (some usecase)) true api_version (some payload) w
                ≡ ([], w)))
  handle_lem api_version payload w bytes =
      elim (Option-cases (Codec.decode_request api_version payload)) [
        | inl nothing ↦ inr (
          λ h.
              let (dto, fits, at, shape) = h in
              none-some (
                sym nothing
                ∙ (decode_request_iff api_version payload bytes dto).1 (at, fits, shape)),
          handle_no_request api_version payload w nothing,
        )
        | inr (dto, decoded) ↦
            let (at_v1, fits, shape) =
              (decode_request_iff api_version payload bytes dto).0 decoded in
            inl (
              dto,
              at_v1,
              shape,
              subst
                  (λ n.
                    Codec.decode_request n payload ≡ some dto
                    → handle (make_login_handler (some usecase)) true n (some payload) w ≡ (
                      send login (some (be_bytes 4 (code (verdict_on dto w).0))) n ∷ [],
                      (verdict_on dto w).1,
                    ))
                  (sym at_v1) (handle_request dto payload w) decoded,
            )
      ]

-- With the use case on a repository: the client of a well-formed request gets one frame, and its code is
-- `Success` exactly when the repository holds the password that the client gave.
pub handle-login :
    {World : Type 0} (repo : AccountRepository World) (dto : LoginRequestDto) (w : World)
    → FitsLengths dto
    → All IsByte (request_bytes dto)
    → (r : LoginResult) × (handle
          (make_login_handler (some (login_use_case (make_login_use_case repo))))
          true
          v1
          (some (request_bytes dto))
          w
        ≡ (send login (some (be_bytes 4 (code r))) v1 ∷ [], (repo.get_password dto.id w).1))
      × ((r ≡ success) ↔ ((repo.get_password dto.id w).0 ≡ some dto.password))
unfolding validate_credentials
handle-login repo dto w fits bytes =
    let (iff, _, _) = validate_credentials_lem repo dto.id dto.password w in
    (
      (validate_credentials repo dto.id dto.password w).0,
      handle_request (login_use_case (make_login_use_case repo)) dto (request_bytes dto) w
          ((decode_request_iff v1 (request_bytes dto) bytes dto).1 (refl, fits, refl)),
      iff,
    )
