-- ===== src/Server/Acceptor.antt =====
-- `Server`: accepting, and stopping. The threads only run what is posted.
use mathlib.Core.List.{map}
use zem.Base.{ℕ, zero, suc, Bool, true, false, ◌&&◌, ◌||◌, List, [], ◌∷◌, ◌++◌, if◌then◌else◌, ◌==◌}

-- A session that was accepted: whether `m_sessions` has it, whether it still lives, and whether `Stop` has
-- called its `Shutdown`.
pub record Entry : Type 0 where
  pub listed : Bool
  pub alive : Bool
  pub asked : Bool

-- What will call `StartAcceptor` or `OnAccept` next: `Run`, what `Run` posts, the accept under way,
-- the timer after a failed accept, or nothing.
pub data Waiting : Type 0 where
  before_run posted in_accept in_retry for_nothing : Waiting

-- How an accept ends: with an error, with an exception in `OnAccept` before or after the session is
-- put into `m_sessions`, or with a session that has started.
pub data Accepted : Type 0 where
  refused threw_before threw_after accepted : Accepted

-- `sessions` has every session ever accepted, in that order; `stopping` says that the function of
-- `Stop` is on the strand, and `guarded` that `m_work_guard` keeps the threads running.
pub record Server : Type 0 where
  pub is_stopped : Bool
  pub acceptor_open : Bool
  pub guarded : Bool
  pub stopping : Bool
  pub waiting : Waiting
  pub sessions : List Entry
  pub thread_pool_size : ℕ
  pub port : ℕ

-- The constructor. `hardware_concurrency` may give 0.
unfoldable pub make_server : ℕ → ℕ → ℕ → Server
make_server hardware_concurrency port_num thread_pool_size = record {
  is_stopped = false;
  acceptor_open = true;
  guarded = true;
  stopping = false;
  waiting = before_run;
  port = port_num;
  sessions = [];
  thread_pool_size =
      if thread_pool_size == 0
      then if hardware_concurrency == 0 then 1 else hardware_concurrency
      else thread_pool_size;
}

unfoldable pub run : Server → Server
run s = record s { waiting = posted }

unfoldable pub start_acceptor : Server → Server
start_acceptor s = record s { waiting = if s.is_stopped then for_nothing else in_accept }

-- `Stop`, which the destructor calls, and the signal handler.
unfoldable pub stop : Server → Server
stop s = if s.is_stopped then s else record s { is_stopped = true; stopping = true }

unfoldable pub destroy_server : Server → Server
unfolding stop
destroy_server s = stop s

-- What `Stop` does for one entry of `m_sessions`, whose `lock` finds it if it lives.
unfoldable pub shut : Entry → Entry
shut en = record en { listed = false; asked = en.asked || (en.listed && en.alive) }

-- The function that `Stop` posts.
unfoldable pub run_stop : Server → Server
unfolding shut
run_stop s = record s {
  acceptor_open = false;
  guarded = false;
  stopping = false;
  sessions = map shut s.sessions;
}

abbrev pub started_entry : Entry
started_entry = record { listed = true; alive = true; asked = false }

-- The session of an exception is released with its last pointer, and stays listed until its deleter's
-- function runs.
abbrev pub lost_entry : Entry
lost_entry = record { listed = true; alive = false; asked = false }

-- After the test of `m_is_stopped`; `meanwhile` says that `Stop` is called on another thread before
-- `StartAcceptor` reads that again.
unfoldable pub on_outcome : Accepted → Bool → Server → Server
unfolding start_acceptor stop
on_outcome refused meanwhile s = record s { waiting = in_retry }
on_outcome threw_before meanwhile s = record s { waiting = for_nothing }
on_outcome threw_after meanwhile s = record s {
  waiting = for_nothing;
  sessions = s.sessions ++ lost_entry ∷ [];
}
on_outcome accepted meanwhile s =
    let added = record s { sessions = s.sessions ++ started_entry ∷ [] } in
    if meanwhile then start_acceptor (stop added) else start_acceptor added

unfoldable pub on_accept : Accepted → Bool → Server → Server
unfolding on_outcome
on_accept outcome meanwhile s =
    if s.is_stopped
    then record s { acceptor_open = false; waiting = for_nothing }
    else on_outcome outcome meanwhile s

unfoldable pub change_at : ℕ → (Entry → Entry) → List Entry → List Entry
change_at n f [] = []
change_at zero f (en ∷ ens) = f en ∷ ens
change_at (suc n) f (en ∷ ens) = en ∷ change_at n f ens

-- The last pointer to a session goes: its deleter posts a function that erases and deletes it.
unfoldable pub release : Entry → Entry
release en = record en { alive = false }

-- That function, which is only posted for a session that was released.
unfoldable pub erase : Entry → Entry
erase en = if en.alive then en else record en { listed = false }
