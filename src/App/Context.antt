-- ===== src/App/Context.antt =====
-- `AppContext`. What it finds on its host is an argument, and what its functions ask of spdlog, of the
-- thread pool and of the server is the list `calls`.
use zem.Base.{
  ℕ, zero, suc, ◌*◌, ◌%◌, ◌^◌, Bool, true, false, Option, none, some, List, [], ◌∷◌, ◌++◌, ◌==◌,
  ltb, if◌then◌else◌,
}
use zem.Base.Text.{codes}
use zem.Login.{AccountRepository, LoginPort}
use zem.Login.UseCase.{make_login_use_case, login_use_case}
use zem.Db.{Pool}
use zem.Db.Factory.{PostgresDbConfig, create_account_repository}
use zem.Server.Tcp.{TcpServer, make_tcp_server}
use zem.App.Env.{Config}

-- What the libraries throw: each class derives from `std::exception`.
pub data Thrown : Type 0 where
  system_error soci_error other_error : Thrown

-- The directory of the program, the time as `{:%Y%m%dT%H%M%S}` puts it, the number of the hardware's
-- threads, the constructor of SOCI's pool, and what is thrown, if anything: by making a log file at
-- a path, by making a thread pool with so many threads (of more than an `int` holds, or that cannot
-- be created), by opening a connection, by making a server at a port, and by running it.
pub record Host (World : Type 0) : Type 0 where
  pub directory : List ℕ
  pub time : List ℕ
  pub hardware_concurrency : ℕ
  pub make_pool : ℕ → Pool World
  pub log_file_throws : List ℕ → Option Thrown
  pub thread_pool_throws : ℕ → Option Thrown
  pub connection_throws : Thrown
  pub server_throws : ℕ → Option Thrown
  pub run_throws : Option Thrown

-- A pointer: null, to an object that answers, or to one whose answer to a login never comes, since the post
-- to a thread pool without threads is never run.
pub data Held (A : Type 0) : Type 0 where
  null deaf : Held A
  holds : A → Held A

-- What is made over a thread pool of so many threads.
abbrev pub over_threads : {A : Type 0} → ℕ → A → Held A
over_threads zero a = deaf
over_threads (suc n) a = holds a

-- `spdlog::level`
pub data Level : Type 0 where
  trace err : Level

pub data LibraryCall : Type 0 where
  -- a name, a path, the largest size of a file, and how many files
  creates_file_logger : List ℕ → List ℕ → ℕ → ℕ → LibraryCall
  flushes_on : Level → LibraryCall
  -- seconds
  flushes_every : ℕ → LibraryCall
  sets_default_logger : List ℕ → LibraryCall
  sets_pattern : List ℕ → LibraryCall
  sets_level : Level → LibraryCall
  shuts_logger_down : LibraryCall
  starts_pool : ℕ → LibraryCall
  stops_pool joins_pool destroys_pool : LibraryCall
  opens_port : ℕ → LibraryCall
  runs_server destroys_server : LibraryCall

-- `db_thread_pool` holds how many threads the pool has.
pub record AppContext (World : Type 0) : Type 0 where
  pub config : Config
  pub db_thread_pool : Option ℕ
  pub account_repo : Held (AccountRepository World)
  pub login_usecase : Held (LoginPort World)
  pub server : Held (TcpServer World)
  pub logger_initialized : Bool
  pub db_pool_stopped : Bool
  pub calls : List LibraryCall

-- `config_.db_thread_count`, or at least two threads; the thread pool takes an `unsigned int`.
unfoldable pub thread_count : ℕ → ℕ → ℕ
thread_count hardware_concurrency configured =
    let concurrency = if hardware_concurrency == 0 then 1 else hardware_concurrency in
    (if configured == 0 then if ltb 2 concurrency then concurrency else 2 else configured) % 2 ^ 32

unfoldable pub db_config : Config → PostgresDbConfig
db_config config = record {
  address = config.db.address;
  port = config.db.port;
  name = config.db.name;
  user = config.db.user;
  password = config.db.password;
  pool_size = config.db_pool_size;
}

-- A function of the constructor ends, or throws and leaves the members that were made.
pub data Made (World : Type 0) : Type 0 where
  made : AppContext World → Made World
  threw : Thrown → AppContext World → Made World

abbrev pub logger_name : List ℕ
logger_name = codes "zem_file_logger"

module _ {World : Type 0} where
  abbrev pub calling : LibraryCall → AppContext World → AppContext World
  calling c s = record s { calls = s.calls ++ c ∷ [] }

  -- A call that comes back, or throws.
  abbrev pub unless_thrown : Option Thrown → AppContext World → AppContext World → Made World
  unless_thrown none back asked = made back
  unless_thrown (some x) back asked = threw x asked

  -- What follows is done unless a function threw.
  abbrev pub next :
      Made World × World → (AppContext World → World → Made World × World) → Made World × World
  next (made s, w) f = f s w
  next (threw x s, w) f = (threw x s, w)

  unfoldable pub log_path : Host World → List ℕ
  log_path host = host.directory ++ codes "/Log/zem_" ++ host.time ++ codes ".log"

  unfoldable pub set_up_logger : AppContext World → AppContext World
  set_up_logger s = record s {
    logger_initialized = true;
    calls =
        s.calls
        ++ flushes_on err
          ∷ flushes_every 3
          ∷ sets_default_logger logger_name
          ∷ sets_pattern (codes "[%H:%M:%S %z] [%t] [%^-%L-%$] %v")
          ∷ sets_level trace
          ∷ [];
  }

  unfoldable pub init_logger : Host World → AppContext World → Made World
  unfolding set_up_logger log_path
  init_logger host s =
      let asked = calling (creates_file_logger logger_name (log_path host) (1024 * 1024 * 5) 5) s in
      if s.logger_initialized
      then made s
      else unless_thrown (host.log_file_throws (log_path host)) (set_up_logger asked) asked

  -- The thread pool is there before the connections are opened, unless its constructor throws.
  unfoldable pub start_pool : Host World → AppContext World → Made World
  unfolding thread_count
  start_pool host s =
      let threads = thread_count host.hardware_concurrency s.config.db_thread_count in
      let asked = calling (starts_pool threads) s in
      unless_thrown (host.thread_pool_throws threads)
        (record asked { db_thread_pool = some threads }) asked

  abbrev pub threads_of : AppContext World → ℕ
  threads_of s = elim s.db_thread_pool [ none ↦ 0 | some threads ↦ threads ]

  -- What the factory threw leaves `InitDb`. The repository posts its queries to the thread pool.
  unfoldable pub with_repo :
      Thrown → Option (AccountRepository World) → AppContext World → Made World
  with_repo x none s = threw x s
  with_repo x (some repo) s = made (record s { account_repo = over_threads (threads_of s) repo })

  -- The rest of `InitDb`, on the thread pool that was made.
  unfoldable pub open_db : Host World → AppContext World → World → Made World × World
  unfolding with_repo db_config
  open_db host s w =
      let (repo, w') =
        create_account_repository host.make_pool host.hardware_concurrency (db_config s.config) w in
      (with_repo host.connection_throws repo s, w')

  unfoldable pub init_db : Host World → AppContext World → World → Made World × World
  unfolding start_pool open_db
  init_db host s w = next (start_pool host s, w) (open_db host)

  unfoldable pub build_use_cases : AppContext World → AppContext World
  build_use_cases s = record s {
    login_usecase = elim s.account_repo [
      | null ↦ null
      | deaf ↦ deaf
      | holds r ↦ holds (login_use_case (make_login_use_case r))
    ];
  }

  unfoldable pub build_server : Host World → AppContext World → Made World
  build_server host s =
      let asked = calling (opens_port s.config.port) s in
      let make = λ (u : Option (LoginPort World)).
        make_tcp_server host.hardware_concurrency u s.config.port 0 in
      unless_thrown (host.server_throws s.config.port)
        (record asked {
          server = elim s.login_usecase [
            | null ↦ holds (make none)
            | deaf ↦ deaf
            | holds u ↦ holds (make (some u))
          ];
        })
        asked

  abbrev pub unset : Config → AppContext World
  unset config = record {
    config = config;
    db_thread_pool = none;
    account_repo = null;
    login_usecase = null;
    server = null;
    logger_initialized = false;
    db_pool_stopped = false;
    calls = [];
  }

  -- After `InitDb`.
  unfoldable pub build : Host World → AppContext World → World → Made World × World
  unfolding build_use_cases build_server
  build host s w = (build_server host (build_use_cases s), w)

  -- The constructor.
  unfoldable pub make_app : Host World → Config → World → Made World × World
  unfolding init_logger init_db build
  make_app host config w =
      next (next (init_logger host (unset config), w) (init_db host)) (build host)

  -- The context after it, and what it threw.
  unfoldable pub run_app : Host World → AppContext World → AppContext World × Option Thrown
  run_app host s = elim s.server [
    | null ↦ (s, none)
    | deaf ↦ (calling runs_server s, host.run_throws)
    | holds server ↦ (calling runs_server s, host.run_throws)
  ]

  unfoldable pub stop_db_thread_pool : AppContext World → AppContext World
  stop_db_thread_pool s = elim s.db_thread_pool [
    | none ↦ s
    | some threads ↦
        if s.db_pool_stopped
        then s
        else calling joins_pool (calling stops_pool (record s { db_pool_stopped = true }))
  ]

  unfoldable pub reset_server : AppContext World → AppContext World
  reset_server s = elim s.server [
    | null ↦ s
    | deaf ↦ calling destroys_server (record s { server = null })
    | holds server ↦ calling destroys_server (record s { server = null })
  ]

  unfoldable pub shutdown_logger : AppContext World → AppContext World
  shutdown_logger s =
      if s.logger_initialized
      then calling shuts_logger_down (record s { logger_initialized = false })
      else s

  -- The members go in the reverse order.
  unfoldable pub destroy_members : AppContext World → AppContext World
  unfolding reset_server
  destroy_members s =
      let left = record (reset_server s) { login_usecase = null; account_repo = null } in
      elim left.db_thread_pool [
        | none ↦ left
        | some threads ↦ calling destroys_pool (record left { db_thread_pool = none })
      ]

  -- The destructor.
  unfoldable pub destroy_app : AppContext World → AppContext World
  unfolding stop_db_thread_pool reset_server shutdown_logger destroy_members
  destroy_app s = destroy_members (shutdown_logger (reset_server (stop_db_thread_pool s)))
