-- ===== src/App/Lifetime.antt =====
-- What a context does from its construction to its end.
use zem.Base.{
  ℕ, zero, suc, ◌*◌, ◌%◌, ◌^◌, ◌<◌, ◌≡◌, ◌≢◌, ◌↔◌, refl, some, List, [], ◌∷◌, ◌++◌, arith,
}
use zem.Base.Text.{codes}
use zem.Login.{AccountRepository}
use zem.Login.UseCase.{make_login_use_case, login_use_case}
use zem.Server.Tcp.{TcpServer, make_tcp_server}
use zem.App.Env.{Config}
use zem.App.Context.{
  AppContext, LibraryCall, creates_file_logger, flushes_on, flushes_every, sets_default_logger,
  sets_pattern, sets_level, trace, err, starts_pool, shuts_logger_down, stops_pool, joins_pool,
  destroys_pool, opens_port, runs_server, destroys_server, thread_count, Host, calling, log_path,
  logger_name, set_up_logger, unset, build_use_cases, build_server, run_app, destroy_members,
  destroy_app, over_threads, unless_thrown,
}

-- The database's thread pool gets no thread exactly when a configured number of threads that is not 0
-- is a multiple of 2 ^ 32, on hardware of less than 2 ^ 32 threads.
pub thread_count-zero :
    (concurrency configured : ℕ)
    → concurrency < 2 ^ 32
    → (thread_count concurrency configured ≡ 0) ↔ ((configured ≢ 0) × (configured % 2 ^ 32 ≡ 0))
unfolding thread_count
thread_count-zero concurrency configured h = ground arith

module _ {World : Type 0} (host : Host World) (config : Config) where
  -- The logger is made, and set up if its file could be made.
  abbrev pub asks_logger : List LibraryCall
  asks_logger = creates_file_logger logger_name (log_path host) (1024 * 1024 * 5) 5 ∷ []

  abbrev pub logger_calls : List LibraryCall
  logger_calls =
      asks_logger
      ++ flushes_on err
        ∷ flushes_every 3
        ∷ sets_default_logger logger_name
        ∷ sets_pattern (codes "[%H:%M:%S %z] [%t] [%^-%L-%$] %v")
        ∷ sets_level trace
        ∷ []

  abbrev pub threads : ℕ
  threads = thread_count host.hardware_concurrency config.db_thread_count

  -- The calls of a whole lifetime.
  abbrev pub lifetime : List LibraryCall
  lifetime =
      logger_calls
      ++ starts_pool threads
        ∷ opens_port config.port
        ∷ runs_server
        ∷ stops_pool
        ∷ joins_pool
        ∷ destroys_server
        ∷ shuts_logger_down
        ∷ destroys_pool
        ∷ []

  -- A context that has been run, whether or not that threw, and destroyed.
  abbrev pub Ends : AppContext World → Type 0
  Ends s =
      let over = destroy_app (run_app host s).0 in
      (over.calls ≡ lifetime) × (destroy_app over ≡ over)

  -- The server whose use case asks that repository.
  abbrev pub server_on : AccountRepository World → TcpServer World
  server_on repo =
      make_tcp_server host.hardware_concurrency (some (login_use_case (make_login_use_case repo)))
        config.port 0

  -- The steps of the constructor, where none throws.
  unfoldable pub asked : AppContext World
  asked =
      calling (creates_file_logger logger_name (log_path host) (1024 * 1024 * 5) 5) (unset config)

  unfoldable pub started : AppContext World
  unfolding asked
  started = set_up_logger asked

  unfoldable pub pool_asked : AppContext World
  unfolding started
  pool_asked = calling (starts_pool threads) started

  unfoldable pub pooled : AppContext World
  unfolding pool_asked
  pooled = record pool_asked { db_thread_pool = some threads }

  -- With `n` for the number of threads, by which the repository answers.
  unfoldable pub served : ℕ → AccountRepository World → AppContext World
  unfolding pooled
  served n repo = build_use_cases (record pooled { account_repo = over_threads n repo })

  unfoldable pub bound : ℕ → AccountRepository World → AppContext World
  unfolding served
  bound n repo = calling (opens_port config.port) (served n repo)

  unfoldable pub with_server : ℕ → AccountRepository World → AppContext World
  unfolding bound
  with_server n repo = record (bound n repo) { server = over_threads n (server_on repo) }

  pub with_server-Ends : (n : ℕ) (repo : AccountRepository World) → Ends (with_server n repo)
  unfolding with_server bound served pooled pool_asked started asked set_up_logger build_use_cases
      run_app destroy_members destroy_app
  with_server-Ends zero repo = (refl, refl)
  with_server-Ends (suc n) repo = (refl, refl)

  pub bound-calls :
      (n : ℕ) (repo : AccountRepository World)
      → (destroy_members (bound n repo)).calls
        ≡ logger_calls ++ starts_pool threads ∷ opens_port config.port ∷ destroys_pool ∷ []
  unfolding bound served pooled pool_asked started asked set_up_logger build_use_cases
      destroy_members
  bound-calls zero repo = refl
  bound-calls (suc n) repo = refl

  pub build_server-served :
      (n : ℕ) (repo : AccountRepository World)
      → build_server host (served n repo)
        ≡ unless_thrown (host.server_throws config.port) (with_server n repo) (bound n repo)
  unfolding build_server with_server bound served pooled pool_asked started asked set_up_logger
      build_use_cases
  build_server-served zero repo = refl
  build_server-served (suc n) repo = refl

  pub with_server-server :
      (n : ℕ) (repo : AccountRepository World)
      → (with_server n repo).server ≡ over_threads n (server_on repo)
  unfolding with_server
  with_server-server n repo = refl

  pub pooled-calls :
      (destroy_members pooled).calls ≡ logger_calls ++ starts_pool threads ∷ destroys_pool ∷ []
  unfolding pooled pool_asked started asked set_up_logger destroy_members
  pooled-calls = refl
