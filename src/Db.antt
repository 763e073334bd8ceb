-- ===== src/Db.antt =====
-- Adapters/Outbound/Db: the repository of accounts in a database, and its factory. SOCI's connection
-- pool and sessions are the parameter `Pool`, over a `World` that holds the pool and the database.
pub mod Repository
pub mod Factory
mod Runs
use zem.Base.{ℕ, Bool, Option, List}

-- How `try_lease` ends: with an exception, at its timeout, or with the position of a session.
pub data Lease : Type 0 where
  lease_threw timed_out : Lease
  at : ℕ → Lease

-- How the select ends: with an exception, or with `got_data()`, whether the indicator is `i_ok`, and the
-- column.
pub data Row : Type 0 where
  query_threw : Row
  row : Bool → Bool → List ℕ → Row

-- What the sources use of a `soci::connection_pool`. `opens` is `open` of the session at a position,
-- with the connection string, and says whether it throws.
pub record Pool (World : Type 0) : Type 0 where
  pub try_lease : ℕ → World → Lease × World
  pub select_password : ℕ → List ℕ → World → Row × World
  pub give_back : ℕ → World → World
  pub opens : ℕ → List ℕ → World → Bool × World
