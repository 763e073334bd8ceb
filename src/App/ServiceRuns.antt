-- ===== src/App/ServiceRuns.antt =====
-- A login at a context whose database has one account.
use zem.Base.{
  ℕ, ◌+◌, ◌≤◌, ◌≡◌, refl, ◌↔◌, true, false, none, some, ltb, if◌then◌else◌, [], ◌∷◌, ◌++◌, All,
  arith, length,
}
use zem.ByteCodec.Unsigned.{IsByte, be_bytes}
use zem.ByteCodec.Detail.{modulus}
use zem.Protocol.Runs.{digits}
use zem.Login.{LoginResult, LoginRequestDto, success}
use zem.Login.Decoding.{FitsLengths, request_bytes}
use zem.Session.State.{TcpSession, start_handling, at_header, hard_cap, max_body_size}
use zem.Session.Loop.{serve}
use zem.Session.Conversation.{placed}
use zem.Session.Answered.{at_input}
use zem.Session.Steps.{Reach, begin, next, starts_reading}
use zem.Session.Read.{read_next}
use zem.Session.Stream.{outgoing}
use zem.Session.Wire.{Replied}
use zem.Server.Tcp.{TcpServer, session_handlers}
use zem.Server.Served.{login_bytes, reply_bytes}
use zem.Db.{Pool, at, row}
use zem.Db.Repository.{
  get_password, Finds, make_postgres_account_repository, postgres_account_repository,
}
use zem.Db.Factory.{create_account_repository, open_all, pool_size_of}
use zem.App.Env.{Config}
use zem.App.Context.{
  AppContext, Host, Made, made, threw, make_app, db_config, build, with_repo, init_logger, init_db,
  start_pool, open_db, thread_count, set_up_logger, build_use_cases, build_server, log_path, holds,
  soci_error, other_error,
}
use zem.App.Lifetime.{server_on}
use zem.App.Service.{connections, make_app-login}

-- The pool counts its leases, and each select finds "b".
abbrev counting : ℕ → Pool ℕ
counting size = record {
  try_lease = λ ms w. (at 0, w + 1);
  select_password = λ p id w. (row true true (98 ∷ []), w);
  give_back = λ p w. w;
  opens = λ p c w. (false, w);
}

abbrev host : Host ℕ
host = record {
  directory = 47 ∷ [];
  time = 49 ∷ [];
  hardware_concurrency = 8;
  make_pool = counting;
  log_file_throws = λ path. none;
  thread_pool_throws = λ n. if ltb 2147483647 n then some other_error else none;
  connection_throws = soci_error;
  server_throws = λ port. none;
  run_throws = none;
}

abbrev config : Config
config = record {
  db = record { address = []; port = []; name = []; user = []; password = [] };
  port = 80;
  db_pool_size = 1;
  db_thread_count = 0;
}

abbrev context_of : Made ℕ → AppContext ℕ
context_of (made s) = s
context_of (threw x s) = s

abbrev running : AppContext ℕ
running = context_of (make_app host config 0).0

running-make_app : (make_app host config 0).0 ≡ made running
unfolding make_app init_logger init_db create_account_repository open_all pool_size_of db_config
    build with_repo start_pool open_db thread_count set_up_logger build_use_cases build_server
    log_path
running-make_app = refl

abbrev server : TcpServer ℕ
server =
    server_on host config
      (postgres_account_repository (make_postgres_account_repository (some (counting 1))))

running-server : running.server ≡ holds server
unfolding make_app init_logger init_db create_account_repository open_all pool_size_of db_config
    build with_repo start_pool open_db thread_count set_up_logger build_use_cases build_server
    log_path
running-server = refl

abbrev dto : LoginRequestDto
dto = record { id = 97 ∷ []; password = 98 ∷ [] }

dto-FitsLengths : FitsLengths dto
unfolding modulus
dto-FitsLengths = record { id = omega arith; password = omega arith }

dto-IsByte : All IsByte (request_bytes dto)
unfolding be_bytes
dto-IsByte = omega arith

dto-small : length (request_bytes dto) ≤ max_body_size
unfolding be_bytes
dto-small = omega arith

abbrev new : TcpSession
new = start_handling 5

new-Reach : Reach digits (session_handlers server) (placed 5 at_header new)
unfolding start_handling read_next
new-Reach = next (begin 5) (starts_reading refl)

new-room : new.pending_bytes + 14 ≤ hard_cap
unfolding start_handling
new-room = omega arith

make_app-login_example :
    let c =
      serve digits
        (session_handlers server)
        (λ n. 7)
        (length (login_bytes digits dto) + 3)
        (at_input (login_bytes digits dto) 0 (placed 5 at_header new)) in
    (r : LoginResult) × (c.input ≡ [])
    × (c.world ≡ (get_password (some (connections host config)) dto.id 0).1)
    × Replied digits c.session (outgoing new ++ reply_bytes digits r)
    × ((r ≡ success) ↔ Finds (connections host config) dto.id dto.password 0)
unfolding start_handling
make_app-login_example =
    make_app-login host config 0 running running-make_app server running-server digits (λ n. 7) dto
      0 5 new new-Reach dto-FitsLengths dto-IsByte dto-small refl refl refl new-room
