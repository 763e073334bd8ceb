-- ===== src/Server/Steps.antt =====
-- What can happen to a server.
use zem.Base.{ℕ, ◌≡◌, Bool, true}
use zem.Server.Acceptor.{
  Server, Accepted, before_run, posted, in_accept, in_retry, make_server, run, start_acceptor, stop,
  run_stop, on_accept, change_at, release, erase,
}

pub data Step (s : Server) : Server → Type 0 where
  runs : s.waiting ≡ before_run → Step s (run s)
  starts : s.waiting ≡ posted → Step s (start_acceptor s)
  accepts :
      (outcome : Accepted) (meanwhile : Bool)
      → s.waiting ≡ in_accept
      → Step s (on_accept outcome meanwhile s)
  retries : s.waiting ≡ in_retry → Step s (start_acceptor s)
  stops : Step s (stop s)
  runs_stop : s.stopping ≡ true → Step s (run_stop s)
  releases : (n : ℕ) → Step s (record s { sessions = change_at n release s.sessions })
  erases : (n : ℕ) → Step s (record s { sessions = change_at n erase s.sessions })

-- `Later s t`: steps lead from `s` to `t`.
pub data Later (s : Server) : Server → Type 0 where
  here : Later s s
  after : {t u : Server} → Later s t → Step t u → Later s u

abbrev pub Reach : ℕ → ℕ → ℕ → Server → Type 0
Reach concurrency port size s = Later (make_server concurrency port size) s
