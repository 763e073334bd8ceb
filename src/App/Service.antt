-- ===== src/App/Service.antt =====
-- The service as a whole: from what the context has built to the answer that a client gets.
use zem.Base.{ℕ, ◌+◌, ◌≤◌, ◌≡◌, sym, ap, ◌∙◌, subst, ◌↔◌, false, some, List, [], ◌++◌, All, length}
use zem.ByteCodec.Unsigned.{IsByte}
use zem.Protocol.{BigEndian}
use zem.Login.{LoginResult, LoginRequestDto, AccountRepository, success}
use zem.Login.UseCase.{make_login_use_case, login_use_case}
use zem.Login.Decoding.{FitsLengths, request_bytes}
use zem.Session.State.{TcpSession, at_header, hard_cap, max_body_size}
use zem.Session.Loop.{serve}
use zem.Session.Conversation.{placed}
use zem.Session.Answered.{at_input}
use zem.Session.Steps.{Reach}
use zem.Session.Read.{Handler}
use zem.Session.Stream.{outgoing}
use zem.Session.Wire.{Replied}
use zem.Server.Tcp.{TcpServer, session_handlers, make_tcp_server}
use zem.Server.Handlers.{make_handlers}
use zem.Server.Served.{login_bytes, reply_bytes, serve-login}
use zem.Db.{Pool}
use zem.Db.Repository.{
  get_password, make_postgres_account_repository, postgres_account_repository, Finds,
  get_password-some_iff,
}
use zem.Db.Factory.{pool_size_of, create_account_repository-some}
use zem.App.Env.{Config}
use zem.App.Context.{AppContext, Host, made, holds, make_app, db_config}
use zem.App.Lifetime.{server_on, threads}
use zem.App.Construction.{over_threads-holds, make_app-server}

module _ {World : Type 0} (host : Host World) (config : Config) where
  -- The pool of the database's connections.
  abbrev pub connections : Pool World
  connections = host.make_pool (pool_size_of host.hardware_concurrency config.db_pool_size)

  abbrev stored : AccountRepository World
  stored = postgres_account_repository (make_postgres_account_repository (some connections))

  module _ (begin : World) (s : AppContext World) (h : (make_app host config begin).0 ≡ made s)
      (server : TcpServer World) (its : s.server ≡ holds server) where
    login_usecase-stored : some (login_use_case (make_login_use_case stored)) ≡ server.login_usecase
    unfolding db_config make_tcp_server
    login_usecase-stored =
        let (repo, given, has) = make_app-server host config begin s h in
        let same : server_on host config repo ≡ server =
          over_threads-holds (threads host config) (server_on host config repo) (sym has ∙ its) in
        ap (λ r. some (login_use_case (make_login_use_case r)))
          (create_account_repository-some host.make_pool host.hardware_concurrency
            (db_config config) begin given)
        ∙ ap (λ (x : TcpServer World). x.login_usecase) same

    -- In a context that was made, whose server answers, since the database's thread pool has a
    -- thread: a session of its server is reached and waits for a header; it is open, without
    -- backpressure, with nothing posted and with room for 14 bytes below its cap. Its client sends a
    -- login of version 1 whose parts are bytes and fit their lengths and whose body has at most
    -- 2 MB. Then the read loop reads it to the end and leaves the database as `GetPassword` does;
    -- and when the strand runs what the loop has posted, with nothing in between, and the writes
    -- then end well one after the other, the socket has been given what was going out before, and
    -- then exactly one `Login` frame with the result code. The code is `Success` exactly when the pool that was made with the configured
    -- size leases a connection, on which the select for the account's id finds the password that
    -- the client gave, not null.
    pub make_app-login :
        (e : BigEndian) (clock : ℕ → ℕ) (dto : LoginRequestDto) (w : World) (now : ℕ)
        (x : TcpSession)
        → Reach e (session_handlers server) (placed now at_header x)
        → FitsLengths dto
        → All IsByte (request_bytes dto)
        → length (request_bytes dto) ≤ max_body_size
        → x.is_closed ≡ false
        → x.backpressure ≡ false
        → x.tasks ≡ []
        → x.pending_bytes + 14 ≤ hard_cap
        → let c =
            serve e
              (session_handlers server)
              clock
              (length (login_bytes e dto) + 3)
              (at_input (login_bytes e dto) w (placed now at_header x)) in
          (r : LoginResult) × (c.input ≡ [])
          × (c.world ≡ (get_password (some connections) dto.id w).1)
          × Replied e c.session (outgoing x ++ reply_bytes e r)
          × ((r ≡ success) ↔ Finds connections dto.id dto.password w)
    make_app-login e clock dto w now x reach fits bytes small is_open free none_posted room =
        let same = ap make_handlers login_usecase-stored in
        let found = get_password-some_iff connections dto.id dto.password w in
        let (r, input, world, replied, iff) =
          serve-login stored e clock dto w now x
            (subst (λ hs. Reach e hs (placed now at_header x)) (sym same) reach) fits bytes small
            is_open free none_posted room in
        let at_end = λ (hs : List (Handler World)).
          serve e hs clock (length (login_bytes e dto) + 3)
            (at_input (login_bytes e dto) w (placed now at_header x)) in
        (
          r,
          subst (λ hs. (at_end hs).input ≡ []) same input,
          subst (λ hs. (at_end hs).world ≡ (get_password (some connections) dto.id w).1) same world,
          subst (λ hs. Replied e (at_end hs).session (outgoing x ++ reply_bytes e r)) same replied,
          (λ p. found.0 (iff.0 p), λ p. iff.1 (found.1 p)),
        )
