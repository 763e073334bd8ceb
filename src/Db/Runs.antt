-- ===== src/Db/Runs.antt =====
-- The repository and the factory on concrete pools.
use zem.Base.{
  ℕ, zero, suc, arith, ◌≡◌, ◌↔◌, refl, Bool, true, false, some, List, [], ◌∷◌, ◌++◌, ◌==◌, inl, inr,
  if◌then◌else◌,
}
use zem.Base.Text.{codes}
use zem.Db.{Pool, Lease, lease_threw, timed_out, at, row}
use zem.Db.Repository.{
  make_postgres_account_repository, Leases, set_at, get_password, get_password-leases,
  get_password-some_iff, Finds, postgres_account_repository,
}
use zem.Db.Factory.{
  PostgresDbConfig, Opens, positions, pool_size_of, create_account_repository, open_all,
  create_account_repository-opens,
}

-- A pool of one connection, leased or not, on a database with one row.
abbrev lease_one : Bool → Lease × Bool
lease_one true = (timed_out, true)
lease_one false = (at 0, true)

abbrev one : Pool Bool
one = record {
  try_lease = λ ms w. lease_one w;
  select_password = λ p id w. (row true true (98 ∷ []), w);
  give_back = λ p w. if p == 0 then false else w;
  opens = λ p c w. (false, w);
}

abbrev one_leased : Bool → ℕ → Bool
one_leased w q = if q == 0 then w else false

never_throws :
    (w : Bool) (q : ℕ)
    → (lease_one w).0 ≡ lease_threw
    → one_leased (lease_one w).1 q ≡ one_leased w q
never_throws true q e = cc
never_throws false q e = cc

waits :
    (w : Bool) (q : ℕ) → (lease_one w).0 ≡ timed_out → one_leased (lease_one w).1 q ≡ one_leased w q
waits true q e = refl
waits false q e = cc

takes_one :
    (w : Bool) (p q : ℕ)
    → (lease_one w).0 ≡ at p
    → (one_leased w p ≡ false) × (one_leased (lease_one w).1 q ≡ set_at (one_leased w) p true q)
takes_one true p q e = cc
takes_one false zero q e = (refl, ground arith)
takes_one false (suc p) q e = absurd (zero_suc (at_same e))
  where
    at_same : {a b : ℕ} → at a ≡ at b → a ≡ b
    at_same h = cc

    zero_suc : 0 ≡ suc p → ⊥
    zero_suc h = omega arith

frees_one :
    (p : ℕ) (w : Bool) (q : ℕ)
    → one_leased (if p == 0 then false else w) q ≡ set_at (one_leased w) p false q
frees_one p w q = ground arith

abbrev one_leases : Leases one
one_leases = record {
  leased = one_leased;
  threw = λ ms w q e. never_throws w q e;
  not_leased = λ ms w q e. waits w q e;
  takes = λ ms w p q e. takes_one w p q e;
  selects = λ p id w q. refl;
  frees = frees_one;
}

get_password-leases_example :
    one_leased (get_password (some one) (97 ∷ []) false).1 0 ≡ one_leased false 0
get_password-leases_example = get_password-leases one one_leases (97 ∷ []) false 0

get_password-some_iff_example :
    ((get_password (some one) (97 ∷ []) false).0 ≡ some (98 ∷ []))
    ↔ Finds one (97 ∷ []) (98 ∷ []) false
get_password-some_iff_example = get_password-some_iff one (97 ∷ []) (98 ∷ []) false

-- Pools that note what they open.
abbrev noting : ℕ → Pool (List (ℕ × List ℕ))
noting size = record {
  try_lease = λ ms w. (timed_out, w);
  select_password = λ p id w. (row false false [], w);
  give_back = λ p w. w;
  opens = λ p c w. (false, w ++ (p, c) ∷ []);
}

abbrev noting_opens : (size : ℕ) → Opens (noting size)
noting_opens size = record { opened = λ w. w; records_open = λ p c w h. refl }

abbrev config : PostgresDbConfig
config = record {
  address = 97 ∷ [];
  port = 49 ∷ [];
  name = [];
  user = [];
  password = [];
  pool_size = 0;
}

created :
    (create_account_repository noting 1 config []).0
    ≡ some (
        postgres_account_repository
          (make_postgres_account_repository (some (noting (pool_size_of 1 0)))))
unfolding create_account_repository open_all pool_size_of
created = refl

create_account_repository-opens_example :
    (create_account_repository noting 1 config []).1
    ≡ []
      ++ positions
          (codes "host="
            ++ config.address
            ++ codes " port="
            ++ config.port
            ++ codes " dbname="
            ++ config.name
            ++ codes " user="
            ++ config.user
            ++ codes " password="
            ++ config.password)
          0
          2
create_account_repository-opens_example =
    create_account_repository-opens noting 1 config [] 2 (omega arith)
      (inr (inl (refl, (λ e. cc), refl))) (noting_opens 2)
      (postgres_account_repository
        (make_postgres_account_repository (some (noting (pool_size_of 1 0)))))
      created
