-- ===== src/App/Construction.antt =====
-- How the constructor of `AppContext` ends.
use zem.Base.{
  ℕ, zero, suc, ◌≡◌, refl, ap, ◌∙◌, ◌⊎◌, inl, inr, Option, none, some, [], ◌∷◌, ◌++◌, Option-cases,
}
use zem.Login.{AccountRepository}
use zem.Db.Factory.{create_account_repository}
use zem.App.Env.{Config}
use zem.App.Context.{
  AppContext, starts_pool, destroys_pool, opens_port, db_config, Host, Made, made, threw, next,
  log_path, set_up_logger, init_logger, start_pool, with_repo, init_db, build_use_cases, build,
  make_app, destroy_members, holds, Thrown, over_threads, unless_thrown, open_db,
}
use zem.App.Lifetime.{
  asks_logger, logger_calls, threads, Ends, server_on, asked, started, pool_asked, pooled, served,
  bound, with_server, with_server-Ends, bound-calls, build_server-served, with_server-server,
  pooled-calls,
}

pub over_threads-holds : {A : Type 0} (n : ℕ) (a : A) {b : A} → over_threads n a ≡ holds b → a ≡ b
over_threads-holds zero a e = cc
over_threads-holds (suc n) a e = cc

module _ {World : Type 0} (host : Host World) (config : Config) (w : World) where
  -- What the factory gives.
  abbrev pub create : Option (AccountRepository World) × World
  create = create_account_repository host.make_pool host.hardware_concurrency (db_config config) w

  abbrev pub app : Made World × World
  app = make_app host config w

  abbrev pub log_throws : Option Thrown
  log_throws = host.log_file_throws (log_path host)

  abbrev pub pool_throws : Option Thrown
  pool_throws = host.thread_pool_throws (threads host config)

  -- What the constructor comes to, and what it has asked of the libraries when it throws.
  pub data Constructed : Type 0 where
    no_log_file :
        (x : Thrown) (s : AppContext World)
        → log_throws ≡ some x
        → app ≡ (threw x s, w)
        → (destroy_members s).calls ≡ asks_logger host config
        → Constructed
    no_thread_pool :
        (x : Thrown) (s : AppContext World)
        → log_throws ≡ none
        → pool_throws ≡ some x
        → app ≡ (threw x s, w)
        → (destroy_members s).calls
          ≡ logger_calls host config ++ starts_pool (threads host config) ∷ []
        → Constructed
    no_repository :
        (s : AppContext World)
        → log_throws ≡ none
        → pool_throws ≡ none
        → create.0 ≡ none
        → app ≡ (threw host.connection_throws s, create.1)
        → (destroy_members s).calls
          ≡ logger_calls host config ++ starts_pool (threads host config) ∷ destroys_pool ∷ []
        → Constructed
    no_server :
        (x : Thrown) (s : AppContext World)
        → log_throws ≡ none
        → pool_throws ≡ none
        → (repo : AccountRepository World) → create.0 ≡ some repo
        → host.server_throws config.port ≡ some x
        → app ≡ (threw x s, create.1)
        → (destroy_members s).calls
          ≡ logger_calls host config
            ++ starts_pool (threads host config) ∷ opens_port config.port ∷ destroys_pool ∷ []
        → Constructed
    constructed :
        (s : AppContext World)
        → log_throws ≡ none
        → pool_throws ≡ none
        → (repo : AccountRepository World) → create.0 ≡ some repo
        → host.server_throws config.port ≡ none
        → app ≡ (made s, create.1)
        → s.server ≡ over_threads (threads host config) (server_on host config repo)
        → Ends host config s
        → Constructed

  app-unless_thrown :
      app
      ≡ next
          (next
            (unless_thrown log_throws (started host config) (asked host config), w)
            (init_db host))
          (build host)
  unfolding make_app init_logger asked started
  app-unless_thrown = refl

  start_pool-unless_thrown :
      start_pool host (started host config)
      ≡ unless_thrown pool_throws (pooled host config) (pool_asked host config)
  unfolding start_pool pooled pool_asked started asked set_up_logger
  start_pool-unless_thrown = refl

  app-no_log_file : (x : Thrown) → log_throws ≡ some x → app ≡ (threw x (asked host config), w)
  app-no_log_file x e =
      app-unless_thrown
      ∙ ap
          (λ o.
            next
              (next (unless_thrown o (started host config) (asked host config), w) (init_db host))
              (build host))
          e

  app-started :
      (o : Option Thrown)
      → log_throws ≡ none
      → pool_throws ≡ o
      → app
        ≡ next
            (next (unless_thrown o (pooled host config) (pool_asked host config), w) (open_db host))
            (build host)
  unfolding init_db
  app-started o e p =
      app-unless_thrown
      ∙ ap
          (λ o.
            next
              (next (unless_thrown o (started host config) (asked host config), w) (init_db host))
              (build host))
          e
      ∙ ap (λ (m : Made World). next (next (m, w) (open_db host)) (build host))
          (start_pool-unless_thrown
            ∙ ap (λ o. unless_thrown o (pooled host config) (pool_asked host config)) p)

  app-with_repo :
      (r : Option (AccountRepository World))
      → log_throws ≡ none
      → pool_throws ≡ none
      → create.0 ≡ r
      → app ≡ next (with_repo host.connection_throws r (pooled host config), create.1) (build host)
  unfolding open_db pooled pool_asked started asked set_up_logger
  app-with_repo r e p c =
      app-started none e p
      ∙ ap
          (λ r.
            next (with_repo host.connection_throws r (pooled host config), create.1) (build host))
          c

  app-served :
      (o : Option Thrown) (repo : AccountRepository World)
      → log_throws ≡ none
      → pool_throws ≡ none
      → create.0 ≡ some repo
      → host.server_throws config.port ≡ o
      → app ≡ (
        unless_thrown o
            (with_server host config (threads host config) repo)
            (bound host config (threads host config) repo),
        create.1,
      )
  unfolding with_repo build served pooled pool_asked started asked set_up_logger build_use_cases
  app-served o repo e p c v =
      app-with_repo (some repo) e p c
      ∙ ap (λ (m : Made World). (m, create.1))
          (build_server-served host config (threads host config) repo
            ∙ ap
                (λ o.
                  unless_thrown o (with_server host config (threads host config) repo)
                    (bound host config (threads host config) repo))
                v)

  pub make_app-Constructed : Constructed
  unfolding asked pool_asked started set_up_logger destroy_members with_repo
  make_app-Constructed = elim (Option-cases log_throws) [
    | inl e ↦ by_pool e (Option-cases pool_throws)
    | inr (x, e) ↦ no_log_file x (asked host config) e (app-no_log_file x e) refl
  ]
    where
      by_server :
          log_throws ≡ none
          → pool_throws ≡ none
          → (repo : AccountRepository World) → create.0 ≡ some repo
          → (host.server_throws config.port ≡ none)
            ⊎ ((x : Thrown) × (host.server_throws config.port ≡ some x))
          → Constructed
      by_server e p repo c (inl v) =
          constructed (with_server host config (threads host config) repo) e p repo c v
            (app-served none repo e p c v)
            (with_server-server host config (threads host config) repo)
            (with_server-Ends host config (threads host config) repo)
      by_server e p repo c (inr (x, v)) =
          no_server x (bound host config (threads host config) repo) e p repo c v
            (app-served (some x) repo e p c v) (bound-calls host config (threads host config) repo)

      by_repo :
          log_throws ≡ none
          → pool_throws ≡ none
          → (create.0 ≡ none) ⊎ ((repo : AccountRepository World) × (create.0 ≡ some repo))
          → Constructed
      by_repo e p (inl c) =
          no_repository (pooled host config) e p c (app-with_repo none e p c)
            (pooled-calls host config)
      by_repo e p (inr (repo, c)) =
          by_server e p repo c (Option-cases (host.server_throws config.port))

      by_pool :
          log_throws ≡ none
          → (pool_throws ≡ none) ⊎ ((x : Thrown) × (pool_throws ≡ some x))
          → Constructed
      by_pool e (inl p) = by_repo e p (Option-cases create.0)
      by_pool e (inr (x, p)) =
          no_thread_pool x (pool_asked host config) e p (app-started (some x) e p) refl

  -- The server of a context that was made.
  pub make_app-server :
      (s : AppContext World)
      → app.0 ≡ made s
      → (repo : AccountRepository World) × (create.0 ≡ some repo)
        × (s.server ≡ over_threads (threads host config) (server_on host config repo))
  make_app-server s h = elim make_app-Constructed [
    | no_log_file x s' e a calls ↦ cc
    | no_thread_pool x s' e p a calls ↦ cc
    | no_repository s' e p c a calls ↦ cc
    | no_server x s' e p repo c v a calls ↦ cc
    | constructed s' e p repo c v a has ends ↦ (repo, c, cc)
  ]
