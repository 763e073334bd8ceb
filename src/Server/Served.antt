-- ===== src/Server/Served.antt =====
-- The read loop of a session with the handlers that a server gives it.
use zem.Base.{
  ℕ, ◌+◌, ◌≤◌, ◌≡◌, refl, sym, ap, ◌∙◌, append-nil, subst, inl, inr, ◌↔◌, false, Option, some, List,
  [], ◌∷◌, ◌++◌, All, arith, length,
}
use zem.ByteCodec.Unsigned.{IsByte}
use zem.Protocol.{BigEndian, TcpServiceType, login, to_code, send}
use zem.Protocol.ApiVersion.{v1}
use zem.Login.{LoginPort, LoginResult, LoginRequestDto, AccountRepository, success}
use zem.Login.UseCase.{make_login_use_case, login_use_case}
use zem.Login.Decoding.{FitsLengths, request_bytes}
use zem.Login.Answers.{handle-login}
use zem.Session.State.{TcpSession, at_header, hard_cap, max_body_size}
use zem.Session.Read.{Outcome, Handler, handler_of}
use zem.Session.Loop.{serve}
use zem.Session.Conversation.{requests, conversation_bytes, Served, converse, placed}
use zem.Session.Answered.{at_input}
use zem.Session.Wire.{IsFrame, frames_size, frames_bytes, Replied, serve-Replied}
use zem.Session.Stream.{outgoing}
use zem.Session.Steps.{Reach}
use zem.Session.Frames.{wire_frame}
use zem.Session.Send.{size_of_body}
use zem.Server.Handlers.{unhandled, login_handler, make_handlers}
use zem.Server.Answering.{reply}

module _ {World : Type 0} (usecase : Option (LoginPort World)) where
  abbrev handler_for : TcpServiceType → Handler World
  handler_for login = login_handler usecase
  handler_for other = unhandled

  table :
      (t : TcpServiceType) → Served t → handler_of (make_handlers usecase) t ≡ some (handler_for t)
  unfolding make_handlers handler_of to_code
  table t served = elim served [
    | inl e ↦ subst (λ x. handler_of (make_handlers usecase) x ≡ some (handler_for x)) (sym e) refl
    | inr e ↦ subst (λ x. handler_of (make_handlers usecase) x ≡ some (handler_for x)) (sym e) refl
  ]

-- The client's part of a login.
abbrev pub login_bytes : BigEndian → LoginRequestDto → List ℕ
login_bytes e dto = conversation_bytes e (requests login (request_bytes dto) ∷ [])

-- The answer to a login that ends with `r`.
abbrev pub replies : {World : Type 0} → LoginResult → World → Outcome World
replies r w = record { calls = send login (some (reply r)) v1 ∷ []; threw = false; world = w }

-- The frame of that answer.
abbrev pub reply_bytes : BigEndian → LoginResult → List ℕ
reply_bytes e r = wire_frame e login (reply r) v1

module _ {World : Type 0} (repo : AccountRepository World) where
  abbrev usecase : Option (LoginPort World)
  usecase = some (login_use_case (make_login_use_case repo))

  converse-login :
      (dto : LoginRequestDto) (w : World)
      → FitsLengths dto
      → All IsByte (request_bytes dto)
      → (r : LoginResult) × (converse
            (handler_for usecase)
            (requests login (request_bytes dto) ∷ [])
            w
          ≡ replies r (repo.get_password dto.id w).1)
        × ((r ≡ success) ↔ ((repo.get_password dto.id w).0 ≡ some dto.password))
  unfolding converse login_handler
  converse-login dto w fits bytes =
      let (r, handled, iff) = handle-login repo dto w fits bytes in
      (r, ap (λ p. record { calls = p.0 ++ []; threw = false; world = p.1 }) handled, iff)

  -- A login is answered on the wire.
  pub serve-login :
      (e : BigEndian) (clock : ℕ → ℕ) (dto : LoginRequestDto) (w : World) (now : ℕ) (s : TcpSession)
      → Reach e (make_handlers usecase) (placed now at_header s)
      → FitsLengths dto
      → All IsByte (request_bytes dto)
      → length (request_bytes dto) ≤ max_body_size
      → s.is_closed ≡ false
      → s.backpressure ≡ false
      → s.tasks ≡ []
      → s.pending_bytes + 14 ≤ hard_cap
      → let c =
          serve e
            (make_handlers usecase)
            clock
            (length (login_bytes e dto) + 3)
            (at_input (login_bytes e dto) w (placed now at_header s)) in
        (r : LoginResult) × (c.input ≡ [])
        × (c.world ≡ (repo.get_password dto.id w).1)
        × Replied e c.session (outgoing s ++ reply_bytes e r)
        × ((r ≡ success) ↔ ((repo.get_password dto.id w).0 ≡ some dto.password))
  unfolding size_of_body
  serve-login e clock dto w now s reach fits bytes small is_open free none_posted room =
      let (r, answer, iff) = converse-login dto w fits bytes in
      let some_bytes : 1 ≤ length (request_bytes dto) = omega arith in
      let back = sym answer in
      let (input, world, replied) =
        serve-Replied e (make_handlers usecase) clock (handler_for usecase) (table usecase)
          (requests login (request_bytes dto) ∷ []) w now s reach
          ((inl refl, some_bytes, small), tt) is_open free none_posted
          (subst (λ (o : Outcome World). o.threw ≡ false) back refl)
          (subst (λ (o : Outcome World). All IsFrame o.calls) back (omega arith, tt))
          (subst (λ (o : Outcome World). s.pending_bytes + frames_size o.calls ≤ hard_cap) back
            (omega arith)) in
      (
        r,
        input,
        world ∙ ap (λ (o : Outcome World). o.world) answer,
        subst
            (Replied e
              (serve e (make_handlers usecase) clock (length (login_bytes e dto) + 3)
                (at_input (login_bytes e dto) w (placed now at_header s))).session)
            (ap (λ (o : Outcome World). outgoing s ++ frames_bytes e o.calls) answer
              ∙ ap (λ x. outgoing s ++ x) (append-nil (reply_bytes e r)))
            replied,
        iff,
      )
