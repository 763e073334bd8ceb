-- ===== src/Db/Repository.antt =====
-- `PostgresAccountRepository::GetPassword`. The posts to the executor of the database and back move the
-- coroutine and change nothing else.
use zem.Base.{
  ℕ, ◌↔◌, ◌≡◌, refl, sym, ap, ◌∙◌, inl, inr, Bool, true, false, ◌&&◌, Option, none, some, List,
  ◌==◌, ==_iff, if◌then◌else◌, Bool-cases,
}
use zem.Login.{AccountRepository}
use zem.Db.{Lease, lease_threw, timed_out, at, Row, query_threw, row, Pool}

abbrev pub lease_timeout_ms : ℕ
lease_timeout_ms = 2000

unfoldable pub password_of : Row → Option (List ℕ)
password_of query_threw = none
password_of (row got_data ok stored) = if got_data && ok then some stored else none

module _ {World : Type 0} (pool : Pool World) where
  -- The `try` block and the `if (leased)` behind it.
  unfoldable pub with_lease : List ℕ → Lease × World → Option (List ℕ) × World
  unfolding password_of
  with_lease id (lease_threw, w) = (none, w)
  with_lease id (timed_out, w) = (none, w)
  with_lease id (at pos, w) =
      let (found, w') = pool.select_password pos id w in (password_of found, pool.give_back pos w')

-- `m_pool` may be null.
unfoldable pub get_password :
    {World : Type 0} → Option (Pool World) → List ℕ → World → Option (List ℕ) × World
unfolding with_lease
get_password none id w = (none, w)
get_password (some pool) id w = with_lease pool id (pool.try_lease lease_timeout_ms w)

-- The class, without the executor, which moves a coroutine and nothing else.
pub record PostgresAccountRepository (World : Type 0) : Type 0 where
  pub pool : Option (Pool World)

abbrev pub make_postgres_account_repository :
    {World : Type 0} → Option (Pool World) → PostgresAccountRepository World
make_postgres_account_repository pool = record { pool = pool }

-- It is an `IAccountRepository`.
abbrev pub postgres_account_repository :
    {World : Type 0} → PostgresAccountRepository World → AccountRepository World
postgres_account_repository r = record { get_password = get_password r.pool }

-- Whether a position is leased, with `p` set.
abbrev pub set_at : (ℕ → Bool) → ℕ → Bool → ℕ → Bool
set_at f p b q = if q == p then b else f q

-- What SOCI documents of its pool: a lease takes a free position, a timeout and a select take none,
-- and `give_back` frees one.
pub record Leases {World : Type 0} (pool : Pool World) : Type 0 where
  pub leased : World → ℕ → Bool
  pub threw :
      (ms : ℕ) (w : World) (q : ℕ)
      → (pool.try_lease ms w).0 ≡ lease_threw
      → leased (pool.try_lease ms w).1 q ≡ leased w q
  pub not_leased :
      (ms : ℕ) (w : World) (q : ℕ)
      → (pool.try_lease ms w).0 ≡ timed_out
      → leased (pool.try_lease ms w).1 q ≡ leased w q
  pub takes :
      (ms : ℕ) (w : World) (p q : ℕ)
      → (pool.try_lease ms w).0 ≡ at p
      → (leased w p ≡ false) × (leased (pool.try_lease ms w).1 q ≡ set_at (leased w) p true q)
  pub selects :
      (p : ℕ) (id : List ℕ) (w : World) (q : ℕ)
      → leased (pool.select_password p id w).1 q ≡ leased w q
  pub frees :
      (p : ℕ) (w : World) (q : ℕ) → leased (pool.give_back p w) q ≡ set_at (leased w) p false q

set_at-back :
    (f g : ℕ → Bool) (p q : ℕ) → f p ≡ false → g q ≡ set_at f p true q → set_at g p false q ≡ f q
set_at-back f g p q free e = elim (Bool-cases (q == p)) [
  | inl same ↦ ap (λ b. if b then false else g q) same ∙ sym free ∙ ap f (sym ((==_iff q p).0 same))
  | inr other ↦
      ap (λ b. if b then false else g q) other ∙ e ∙ ap (λ b. if b then true else f q) other
]

module _ {World : Type 0} (pool : Pool World) (l : Leases pool) where
  -- After `GetPassword`, whatever the database does, exactly the connections are leased that were leased
  -- before.
  pub get_password-leases :
      (id : List ℕ) (w : World) (q : ℕ)
      → l.leased (get_password (some pool) id w).1 q ≡ l.leased w q
  unfolding get_password
  get_password-leases id w q = by_lease (pool.try_lease lease_timeout_ms w) refl
    where
      by_lease :
          (o : Lease × World)
          → pool.try_lease lease_timeout_ms w ≡ o
          → l.leased (with_lease pool id o).1 q ≡ l.leased w q
      by_lease (lease_threw, w') e =
          ap (λ x. l.leased x.1 q) (sym e) ∙ l.threw lease_timeout_ms w q (ap (λ x. x.0) e)
      by_lease (timed_out, w') e =
          ap (λ x. l.leased x.1 q) (sym e) ∙ l.not_leased lease_timeout_ms w q (ap (λ x. x.0) e)
      by_lease (at p, w') e =
          let taken = l.takes lease_timeout_ms w p q (ap (λ x. x.0) e) in
          l.frees p (pool.select_password p id w').1 q
          ∙ ap (λ b. if q == p then false else b) (l.selects p id w' q)
          ∙ set_at-back (l.leased w) (l.leased w') p q taken.0
              (ap (λ x. l.leased x.1 q) (sym e) ∙ taken.1)

module _ {World : Type 0} (pool : Pool World) (id password : List ℕ) (w : World) where
  -- The pool leases a session, on which the select finds that password, not null.
  abbrev pub Finds : Type 0
  Finds =
      (p : ℕ) × ((pool.try_lease lease_timeout_ms w).0 ≡ at p)
      × ((pool.select_password p id (pool.try_lease lease_timeout_ms w).1).0
          ≡ row true true password)

  get_password-some : (get_password (some pool) id w).0 ≡ some password → Finds
  unfolding get_password
  get_password-some h = by_lease (pool.try_lease lease_timeout_ms w) h
    where
      by_row : (r : Row) → password_of r ≡ some password → r ≡ row true true password
      by_row query_threw e = cc
      by_row (row true true stored) e = cc
      by_row (row true false stored) e = cc
      by_row (row false ok stored) e = cc

      by_lease :
          (o : Lease × World)
          → (with_lease pool id o).0 ≡ some password
          → (p : ℕ) × (o.0 ≡ at p) × ((pool.select_password p id o.1).0 ≡ row true true password)
      by_lease (lease_threw, w') e = cc
      by_lease (timed_out, w') e = cc
      by_lease (at p, w') e = (p, refl, by_row (pool.select_password p id w').0 e)

  Finds-get_password : Finds → (get_password (some pool) id w).0 ≡ some password
  unfolding get_password
  Finds-get_password (p, leased, found) = by_lease (pool.try_lease lease_timeout_ms w) leased found
    where
      by_lease :
          (o : Lease × World)
          → o.0 ≡ at p
          → (pool.select_password p id o.1).0 ≡ row true true password
          → (with_lease pool id o).0 ≡ some password
      by_lease (lease_threw, w') e f = cc
      by_lease (timed_out, w') e f = cc
      by_lease (at q, w') e f =
          let same : q ≡ p = cc in
          ap password_of (ap (λ x. (pool.select_password x id w').0) same ∙ f)

  -- A password is given exactly when the pool leases a session on which the select finds it, not null.
  pub get_password-some_iff : ((get_password (some pool) id w).0 ≡ some password) ↔ Finds
  get_password-some_iff = (get_password-some, Finds-get_password)
