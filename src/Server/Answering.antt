-- ===== src/Server/Answering.antt =====
-- A login from the bytes that a client sends to the bytes that it is sent.
use zem.Base.{
  ℕ, ◌+◌, ◌≤◌, ◌≡◌, refl, ap, ◌∙◌, inl, ◌↔◌, false, some, List, [], ◌∷◌, ◌++◌, All, arith, length,
  take, drop,
}
use zem.ByteCodec.Unsigned.{IsByte, be_bytes}
use zem.Protocol.{BigEndian, login, header_size}
use zem.Protocol.ApiVersion.{v1}
use zem.Login.{LoginResult, LoginRequestDto, AccountRepository, success, code}
use zem.Login.UseCase.{make_login_use_case, login_use_case}
use zem.Login.Decoding.{FitsLengths, request_bytes}
use zem.Session.State.{TcpSession, frame, max_body_size, hard_cap}
use zem.Session.Send.{send_frame, make_item, run_frame, size_of_body}
use zem.Session.Read.{on_header, on_body, on_handled, read_next}
use zem.Session.Steps.{with_tasks}
use zem.Session.Batch.{frame_bytes}
use zem.Session.Stream.{outgoing}
use zem.Session.Framing.{receives, drop-frame_of, on_body-make_item}
use zem.Session.Accepting.{run_frame-Accepts}
use zem.Server.Handlers.{login_handler, on_handled-login}

-- The reply to a login that ends with `r`.
abbrev pub reply : LoginResult → List ℕ
reply r = be_bytes 4 (code r)

-- What the session is after the client's frame and the handler.
module _ {World : Type 0} (e : BigEndian) (repo : AccountRepository World) (dto : LoginRequestDto)
    (w : World) where
  abbrev pub request_frame : List ℕ
  request_frame = frame_bytes (make_item e login (some (request_bytes dto)) v1)

  abbrev pub after_login : ℕ → ℕ → TcpSession → TcpSession
  after_login now later s =
      let body = drop header_size request_frame in
      on_handled (login_handler (some (login_use_case (make_login_use_case repo))) v1 body w) (
        on_body login v1 (some body) later
          (on_header e (some (take header_size request_frame)) now s))

  after_login-handled :
      (now later : ℕ) (s : TcpSession)
      → FitsLengths dto
      → All IsByte (request_bytes dto)
      → length (request_bytes dto) ≤ max_body_size
      → (r : LoginResult) × (after_login now later s
          ≡ read_next
              (send_frame login (some (reply r)) v1 (receives login (request_bytes dto) later s)))
        × ((r ≡ success) ↔ ((repo.get_password dto.id w).0 ≡ some dto.password))
  after_login-handled now later s fits bytes small =
      let some_bytes : 1 ≤ length (request_bytes dto) = omega arith in
      let handler = login_handler (some (login_use_case (make_login_use_case repo))) v1 in
      let read =
        on_body-make_item e login (request_bytes dto) (inl refl) some_bytes small now later s in
      let (r, handled, iff) =
        on_handled-login repo dto w (receives login (request_bytes dto) later s) fits bytes in
      (
        r,
        ap (on_handled (handler (drop header_size request_frame) w)) read.1
            ∙ ap (λ b. on_handled (handler b w) (receives login (request_bytes dto) later s))
                (drop-frame_of e login (request_bytes dto) v1 some_bytes)
            ∙ handled,
        iff,
      )

  -- A client sends the frame of a login whose parts are bytes and fit their lengths and whose body
  -- has at most 2 MB, and its session is open, has nothing posted, and has room for 14 bytes below
  -- its cap. Then the session reads the frame, asks the repository, posts one frame and nothing
  -- else, and when that function runs, puts exactly a `Login` frame with the result code behind
  -- everything that goes out. The code is `Success` exactly when the repository holds the password
  -- that was given.
  pub after_login-outgoing :
      (now later : ℕ) (s : TcpSession)
      → FitsLengths dto
      → All IsByte (request_bytes dto)
      → length (request_bytes dto) ≤ max_body_size
      → s.is_closed ≡ false
      → s.tasks ≡ []
      → s.pending_bytes + 14 ≤ hard_cap
      → (r : LoginResult) × ((after_login now later s).tasks ≡ frame login (some (reply r)) v1 ∷ [])
        × (outgoing
              (run_frame e login (some (reply r)) v1 (with_tasks (after_login now later s) []))
            ≡ outgoing s ++ frame_bytes (make_item e login (some (reply r)) v1))
        × ((r ≡ success) ↔ ((repo.get_password dto.id w).0 ≡ some dto.password))
  unfolding read_next send_frame size_of_body
  after_login-outgoing now later s fits bytes small is_open none_posted room =
      let (r, after, iff) = after_login-handled now later s fits bytes small in
      (
        r,
        ap (λ (x : TcpSession). x.tasks) after
            ∙ ap (λ ts. ts ++ frame login (some (reply r)) v1 ∷ []) none_posted,
        ap (λ x. outgoing (run_frame e login (some (reply r)) v1 (with_tasks x []))) after
            ∙ (run_frame-Accepts e login (some (reply r)) v1
                (with_tasks
                  (read_next (
                    send_frame login (some (reply r)) v1
                      (receives login (request_bytes dto) later s)))
                  [])
                is_open (omega arith) (omega arith)).goes_out,
        iff,
      )
