-- ===== src/Db/Factory.antt =====
-- `PostgresRepositoryFactory::CreateAccountRepository`.
use zem.Base.{
  ℕ, zero, suc, ◌+◌, ◌*◌, ◌%◌, ◌^◌, ◌≡◌, refl, sym, ap, ◌∙◌, Bool, true, false, Option, none, some,
  List, [], ◌∷◌, ◌++◌, ◌==◌, if◌then◌else◌, if_cases, append-nil, append_assoc, ◌≢◌, ◌⊎◌, ◌<◌,
  arith, subst,
}
use zem.Base.Text.{codes}
use zem.Login.{AccountRepository}
use zem.Db.{Pool}
use zem.Db.Repository.{make_postgres_account_repository, postgres_account_repository}

pub record PostgresDbConfig : Type 0 where
  pub address : List ℕ
  pub port : List ℕ
  pub name : List ℕ
  pub user : List ℕ
  pub password : List ℕ
  pub pool_size : ℕ

unfoldable pub pool_size_of : ℕ → ℕ → ℕ
pool_size_of hardware_concurrency configured =
    if configured == 0
    then 2 * (if hardware_concurrency == 0 then 1 else hardware_concurrency) % 2 ^ 64
    else configured

-- `std::format("host={} port={} dbname={} user={} password={}", …)`
unfoldable pub connection_string : PostgresDbConfig → List ℕ
connection_string config =
    codes "host="
    ++ config.address
    ++ codes " port="
    ++ config.port
    ++ codes " dbname="
    ++ config.name
    ++ codes " user="
    ++ config.user
    ++ codes " password="
    ++ config.password

module _ {World : Type 0} where
  -- The loop from position `i` with `n` rounds left: whether no `open` threw, and the world after it.
  unfoldable pub open_all : Pool World → List ℕ → ℕ → ℕ → World → Bool × World
  open_all pool connection i zero w = (true, w)
  open_all pool connection i (suc n) w =
      let (threw, w') = pool.opens i connection w in
      let rest = open_all pool connection (i + 1) n w' in if threw then (false, w') else rest

  -- `make_pool` is the constructor of `soci::connection_pool`. An exception leaves no repository.
  unfoldable pub create_account_repository :
      (ℕ → Pool World) → ℕ → PostgresDbConfig → World → Option (AccountRepository World) × World
  unfolding open_all pool_size_of
  create_account_repository make_pool hardware_concurrency config w =
      let pool_size = pool_size_of hardware_concurrency config.pool_size in
      let pool = make_pool pool_size in
      let (opened, w') = open_all pool (connection_string config) 0 pool_size w in
      (
        if opened
            then some (postgres_account_repository (make_postgres_account_repository (some pool)))
            else none,
        w',
      )

-- What `open` does that can be observed: the positions that were opened, each with its connection string,
-- in order.
pub record Opens {World : Type 0} (pool : Pool World) : Type 0 where
  pub opened : World → List (ℕ × List ℕ)
  pub records_open :
      (p : ℕ) (connection : List ℕ) (w : World)
      → (pool.opens p connection w).0 ≡ false
      → opened (pool.opens p connection w).1 ≡ opened w ++ (p, connection) ∷ []

-- The positions from `i` on, `n` of them.
abbrev pub positions : List ℕ → ℕ → ℕ → List (ℕ × List ℕ)
positions connection i zero = []
positions connection i (suc n) = (i, connection) ∷ positions connection (i + 1) n

open_all-opened :
    {World : Type 0} (pool : Pool World) (o : Opens pool) (connection : List ℕ) (i n : ℕ)
    (w : World)
    → (open_all pool connection i n w).0 ≡ true
    → o.opened (open_all pool connection i n w).1 ≡ o.opened w ++ positions connection i n
unfolding open_all
open_all-opened pool o connection i zero w h = sym (append-nil (o.opened w))
open_all-opened {World} pool o connection i (suc n) w h =
    by_open (pool.opens i connection w).0 refl h (open_all-opened pool o connection (i + 1) n w')
  where
    w' : World
    w' = (pool.opens i connection w).1

    rest : Bool × World
    rest = open_all pool connection (i + 1) n w'

    by_open :
        (threw : Bool)
        → (pool.opens i connection w).0 ≡ threw
        → (if threw then (false, w') else rest).0 ≡ true
        → (rest.0 ≡ true → o.opened rest.1 ≡ o.opened w' ++ positions connection (i + 1) n)
        → o.opened (if threw then (false, w') else rest).1
          ≡ o.opened w ++ (i, connection) ∷ positions connection (i + 1) n
    by_open true e k others = cc
    by_open false e k others =
        others k
        ∙ ap (λ x. x ++ positions connection (i + 1) n) (o.records_open i connection w e)
        ∙ append_assoc (o.opened w) ((i, connection) ∷ []) (positions connection (i + 1) n)

is_made : {A : Type 0} (b : Bool) (a r : A) → (if b then some a else none) ≡ some r → b ≡ true
is_made true a r e = refl
is_made false a r e = cc

made-opens :
    {World : Type 0} (make_pool : ℕ → Pool World) (concurrency : ℕ) (config : PostgresDbConfig)
    (w : World) (o : Opens (make_pool (pool_size_of concurrency config.pool_size)))
    (repo : AccountRepository World)
    → (create_account_repository make_pool concurrency config w).0 ≡ some repo
    → o.opened (create_account_repository make_pool concurrency config w).1
      ≡ o.opened w
        ++ positions (connection_string config) 0 (pool_size_of concurrency config.pool_size)
unfolding create_account_repository
made-opens make_pool concurrency config w o repo h =
    let n = pool_size_of concurrency config.pool_size in
    let opening = open_all (make_pool n) (connection_string config) 0 n w in
    open_all-opened (make_pool n) o (connection_string config) 0 n w (
      is_made opening.0
        (postgres_account_repository (make_postgres_account_repository (some (make_pool n)))) repo
        h)

-- `n` is the number that was configured, or twice the number of the hardware's threads, which counts as
-- one when it is not known.
abbrev pub PoolSize : ℕ → ℕ → ℕ → Type 0
PoolSize concurrency configured n =
    ((configured ≢ 0) × (n ≡ configured))
    ⊎ ((configured ≡ 0) × (concurrency ≢ 0) × (n ≡ concurrency + concurrency))
    ⊎ ((configured ≡ 0) × (concurrency ≡ 0) × (n ≡ 2))

pool_size_of-PoolSize :
    (concurrency configured n : ℕ)
    → concurrency < 2 ^ 32
    → PoolSize concurrency configured n
    → pool_size_of concurrency configured ≡ n
unfolding pool_size_of
pool_size_of-PoolSize concurrency configured n small sized = ground arith

-- On hardware of less than 2 ^ 32 threads, a repository is only made when all `n` connections of the pool
-- have been opened, from the first position to the last, each with the string of the configured
-- host, port, database, user and password; `n` is the configured number if that is not 0, and
-- otherwise twice the number of the hardware's threads, or 2 if that is 0.
pub create_account_repository-opens :
    {World : Type 0} (make_pool : ℕ → Pool World) (concurrency : ℕ) (config : PostgresDbConfig)
    (w : World) (n : ℕ)
    → concurrency < 2 ^ 32
    → PoolSize concurrency config.pool_size n
    → (o : Opens (make_pool n)) (repo : AccountRepository World)
    → (create_account_repository make_pool concurrency config w).0 ≡ some repo
    → o.opened (create_account_repository make_pool concurrency config w).1
      ≡ o.opened w
        ++ positions
            (codes "host="
              ++ config.address
              ++ codes " port="
              ++ config.port
              ++ codes " dbname="
              ++ config.name
              ++ codes " user="
              ++ config.user
              ++ codes " password="
              ++ config.password)
            0
            n
unfolding connection_string
create_account_repository-opens {World} make_pool concurrency config w n small sized o repo h =
    subst
      (λ (n : ℕ).
        (o : Opens (make_pool n))
        → o.opened (create_account_repository make_pool concurrency config w).1
          ≡ o.opened w ++ positions (connection_string config) 0 n)
      (pool_size_of-PoolSize concurrency config.pool_size n small sized)
      (λ o. made-opens make_pool concurrency config w o repo h) o

-- A repository that the factory gives has the pool that was made.
pub create_account_repository-some :
    {World : Type 0} (make_pool : ℕ → Pool World) (concurrency : ℕ) (config : PostgresDbConfig)
    (w : World) {repo : AccountRepository World}
    → (create_account_repository make_pool concurrency config w).0 ≡ some repo
    → postgres_account_repository (
        make_postgres_account_repository
          (some (make_pool (pool_size_of concurrency config.pool_size))))
      ≡ repo
unfolding create_account_repository
create_account_repository-some make_pool concurrency config w {repo} =
    let pool = make_pool (pool_size_of concurrency config.pool_size) in
    let made = postgres_account_repository (make_postgres_account_repository (some pool)) in
    if_cases (λ o. o ≡ some repo → made ≡ repo)
      (open_all pool (connection_string config) 0 (pool_size_of concurrency config.pool_size) w).0
      (some made) none (λ b e. cc) (λ b e. cc)
