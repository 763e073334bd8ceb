-- ===== src/Login/Handler.antt =====
-- Adapters/Inbound/Tcp/Handlers/Login/LoginHandler.cpp. Its pointers may be null: the use case, the
-- payload and the connection. What it does to the connection is the list of its calls.
use zem.Base.{ℕ, Bool, Option, none, some, List, [], ◌∷◌, if◌then◌else◌}
use zem.Protocol.{Call, send, login}
use zem.Login.{LoginPort, LoginRequestDto, LoginResult}
use zem.Login.Codec

-- After `ValidateCredentials`.
unfoldable pub respond : Bool → ℕ → LoginResult → List Call
respond connected api_version result_code = elim (Codec.encode_response api_version result_code) [
  | none ↦ []
  | some body ↦ if connected then send login (some body) api_version ∷ [] else []
]

module _ {World : Type 0} where
  unfoldable pub answer :
      LoginPort World → Bool → ℕ → Option LoginRequestDto → World → List Call × World
  answer usecase connected api_version none w = ([], w)
  answer usecase connected api_version (some request) w =
      let (result_code, w') = usecase.validate_credentials request.id request.password w in
      (respond connected api_version result_code, w')

  -- The tests of `m_usecase` and of the payload.
  unfoldable pub handle_with :
      Option (LoginPort World) → Bool → ℕ → Option (List ℕ) → World → List Call × World
  handle_with none connected api_version data_buf w = ([], w)
  handle_with (some usecase) connected api_version none w = ([], w)
  handle_with (some usecase) connected api_version (some payload) w =
      answer usecase connected api_version (Codec.decode_request api_version payload) w

-- The class and its constructor.
pub record LoginHandler (World : Type 0) : Type 0 where
  pub usecase : Option (LoginPort World)

abbrev pub make_login_handler : {World : Type 0} → Option (LoginPort World) → LoginHandler World
make_login_handler usecase = record { usecase = usecase }

-- `operator()`
unfoldable pub handle :
    {World : Type 0} → LoginHandler World → Bool → ℕ → Option (List ℕ) → World → List Call × World
unfolding handle_with
handle h connected api_version data_buf w = handle_with h.usecase connected api_version data_buf w
