-- ===== src/Server/Tcp.antt =====
-- `TCPServer`, and the threads of `Server::Run`.
use zem.Base.{
  arith, All, ap, ◌∙◌, ◌↔◌, ◌≤◌, ◌++◌, ℕ, zero, suc, ◌≡◌, refl, Bool, true, false, ◌&&◌, Option,
  none, some, List, [], ◌∷◌, replicate, length,
}
use zem.Login.{LoginPort}
use zem.Session.Read.{Handler}
use zem.Server.Acceptor.{Server, make_server, destroy_server}
use zem.Server.Handlers.{make_handlers}

pub record TcpServer (World : Type 0) : Type 0 where
  pub base : Server
  pub login_usecase : Option (LoginPort World)

module _ {World : Type 0} where
  -- The constructor.
  unfoldable pub make_tcp_server : ℕ → Option (LoginPort World) → ℕ → ℕ → TcpServer World
  make_tcp_server hardware_concurrency login_usecase port_num thread_pool_size = record {
    base = make_server hardware_concurrency port_num thread_pool_size;
    login_usecase = login_usecase;
  }

  -- The destructors of `TCPServer` and of its base.
  unfoldable pub destroy_tcp_server : TcpServer World → TcpServer World
  unfolding destroy_server
  destroy_tcp_server server = record server { base = destroy_server server.base }

  -- The handlers that `MakeSession` gives to a session of this server.
  abbrev pub session_handlers : TcpServer World → List (Handler World)
  session_handlers server = make_handlers server.login_usecase

-- How a call of `m_ios.run()` ends: it throws what a handler threw, or returns, out of work.
pub data IoRun : Type 0 where
  threw returned : IoRun

abbrev one_more : Option ℕ → Option ℕ
one_more none = none
one_more (some n) = some (suc n)

-- One thread of `Run`, by how its calls end, in order: whether it ends, after how many of them.
unfoldable pub run_thread : List IoRun → Option ℕ
run_thread [] = none
run_thread (threw ∷ later) = one_more (run_thread later)
run_thread (returned ∷ later) = some 1

abbrev pub is_some {ℓ} : {A : Type ℓ} → Option A → Bool
is_some none = false
is_some (some a) = true

-- `join` of every thread: whether `Run` returns.
unfoldable pub join_all : List (List IoRun) → Bool
unfolding run_thread
join_all [] = true
join_all (t ∷ ts) = is_some (run_thread t) && join_all ts

-- Some call returned, after calls that threw.
abbrev pub Ends : List IoRun → Type 0
Ends calls = (n : ℕ) × (later : List IoRun) × (calls ≡ replicate n threw ++ returned ∷ later)

is_some-map : (o : Option ℕ) → is_some (one_more o) ≡ true → is_some o ≡ true
is_some-map none h = cc
is_some-map (some n) h = refl

run_thread-Ends : (calls : List IoRun) → is_some (run_thread calls) ≡ true → Ends calls
unfolding run_thread
run_thread-Ends [] h = cc
run_thread-Ends (returned ∷ later) h = (0, later, refl)
run_thread-Ends (threw ∷ later) h =
    let (n, rest, e) = run_thread-Ends later (is_some-map (run_thread later) h) in
    (suc n, rest, ap (◌∷◌ threw) e)

Ends-run_thread :
    (n : ℕ) (later : List IoRun) → run_thread (replicate n threw ++ returned ∷ later) ≡ some (suc n)
unfolding run_thread
Ends-run_thread zero later = refl
Ends-run_thread (suc n) later = ap one_more (Ends-run_thread n later)

both : (a b : Bool) → (a && b) ≡ true → (a ≡ true) × (b ≡ true)
both true true h = (refl, refl)
both true false h = cc
both false b h = cc

join_all-Ends : (threads : List (List IoRun)) → join_all threads ≡ true → All Ends threads
unfolding join_all
join_all-Ends [] h = tt
join_all-Ends (t ∷ ts) h =
    let (one, rest) = both (is_some (run_thread t)) (join_all ts) h in
    (run_thread-Ends t one, join_all-Ends ts rest)

Ends-join_all : (threads : List (List IoRun)) → All Ends threads → join_all threads ≡ true
unfolding join_all
Ends-join_all [] h = refl
Ends-join_all (t ∷ ts) ((n, later, e), rest) =
    ap (λ o. is_some o && join_all ts) (ap run_thread e ∙ Ends-run_thread n later)
    ∙ Ends-join_all ts rest

-- `Run` returns exactly when each of its threads comes to a call of `run` that returns; a handler that
-- throws never ends a thread. There is at least one thread.
pub join_all_iff :
    (concurrency port size : ℕ) (threads : List (List IoRun))
    → length threads ≡ (make_server concurrency port size).thread_pool_size
    → ((join_all threads ≡ true) ↔ All Ends threads) × (1 ≤ length threads)
unfolding make_server
join_all_iff concurrency port size threads e =
    ((join_all-Ends threads, Ends-join_all threads), ground (arith, e))
