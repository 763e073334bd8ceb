-- ===== src/Server/Handlers.antt =====
-- `TCPServer::MakeSession`: the handlers that every session gets.
use zem.Base.{
  ℕ, ◌≡◌, ◌≢◌, ◌⊎◌, inl, inr, true, false, Option, some, List, [], ◌∷◌, replicate, set, ap, ◌↔◌,
  All,
}
use zem.Protocol.{TcpServiceType, login, type_cnt, to_code, close}
use zem.Protocol.ApiVersion.{v1, is_supported_for}
use zem.Protocol.Versions.{is_supported_for_iff}
use zem.ByteCodec.Unsigned.{IsByte, be_bytes}
use zem.Login.{LoginPort, LoginResult, LoginRequestDto, AccountRepository, success, code}
use zem.Login.Handler.{handle, make_login_handler}
use zem.Login.UseCase.{make_login_use_case, login_use_case}
use zem.Login.Decoding.{FitsLengths, request_bytes}
use zem.Login.Answers.{handle-login}
use zem.Session.State.{TcpSession}
use zem.Session.Send.{perform, perform_all, send_frame}
use zem.Session.Read.{Handler, handler_of, on_handled, read_next}

module _ {World : Type 0} where
  -- What `handlers.fill` puts everywhere.
  unfoldable pub unhandled : Handler World
  unhandled api_version data_buf w = record { calls = close ∷ []; threw = false; world = w }

  -- `LoginHandler{m_login_usecase}`, on the connection and the payload of a session, which are not null.
  unfoldable pub login_handler : Option (LoginPort World) → Handler World
  login_handler usecase api_version data_buf w =
      let (calls, w') = handle (make_login_handler usecase) true api_version (some data_buf) w in
      record { calls = calls; threw = false; world = w' }

  unfoldable pub make_handlers : Option (LoginPort World) → List (Handler World)
  unfolding to_code
  make_handlers usecase =
      set (replicate (to_code type_cnt) unhandled) (to_code login) (login_handler usecase)

  -- Every request that passes the checks of its header has a handler: a login the login handler, and
  -- any other type the one that closes the connection.
  pub make_handlers_lem :
      (usecase : Option (LoginPort World)) (t : TcpServiceType) (version : ℕ)
      → is_supported_for t version ≡ true
      → ((t ≡ login) × (handler_of (make_handlers usecase) t ≡ some (login_handler usecase)))
        ⊎ ((t ≢ login) × (handler_of (make_handlers usecase) t ≡ some unhandled))
  unfolding make_handlers handler_of to_code
  make_handlers_lem usecase t version h = elim ((is_supported_for_iff t version).0 h).1 [
    | inl e ↦ inr (λ l. cc, ap (λ x. handler_of (make_handlers usecase) x) e)
    | inr (inl e) ↦ inr (λ l. cc, ap (λ x. handler_of (make_handlers usecase) x) e)
    | inr (inr (inl e)) ↦ inl (e, ap (λ x. handler_of (make_handlers usecase) x) e)
    | inr (inr (inr e)) ↦ inr (λ l. cc, ap (λ x. handler_of (make_handlers usecase) x) e)
  ]

-- A session whose client sent a well-formed login of version 1 posts one `Login` frame with the
-- result code and goes on reading; the code is `Success` exactly when the repository holds the
-- password that was given.
pub on_handled-login :
    {World : Type 0} (repo : AccountRepository World) (dto : LoginRequestDto) (w : World)
    (s : TcpSession)
    → FitsLengths dto
    → All IsByte (request_bytes dto)
    → (r : LoginResult) × (on_handled
          (login_handler
            (some (login_use_case (make_login_use_case repo)))
            v1
            (request_bytes dto)
            w)
          s
        ≡ read_next (send_frame login (some (be_bytes 4 (code r))) v1 s))
      × ((r ≡ success) ↔ ((repo.get_password dto.id w).0 ≡ some dto.password))
unfolding login_handler on_handled perform_all perform
on_handled-login repo dto w s fits bytes =
    let (r, handled, iff) = handle-login repo dto w fits bytes in (r, rw handled, iff)
