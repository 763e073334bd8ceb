-- ===== src/Server/Together.antt =====
-- What a server promises of its sessions.
use mathlib.Core.List.{map}
use zem.Base.{
  ℕ, ◌≡◌, refl, sym, subst, ◌⊎◌, inl, inr, Bool, true, false, ◌&&◌, ◌||◌, List, [], ◌∷◌, ◌++◌,
  if◌then◌else◌, if_cases, Option,
}
use zem.Protocol.{BigEndian}
use zem.Session.State.{TcpSession, start_handling, shutdown}
use zem.Session.Read.{Handler}
use zem.Session.Steps as Session
use zem.Session.Goes.{shutdown-is_closed}
use zem.Session.Closing.{closed-final}
use zem.Server.Acceptor.{
  Entry, Server, Accepted, refused, threw_before, threw_after, accepted, make_server, run,
  start_acceptor, stop, shut, run_stop, started_entry, lost_entry, on_outcome, on_accept, release,
  erase,
}
use zem.Server.Steps.{
  Step, runs, starts, accepts, retries, stops, runs_stop, releases, erases, Reach, Later, here,
  after,
}
use zem.Login.{LoginPort}
use zem.Server.Handlers.{make_handlers}
use zem.Server.Stopping.{stopped-asked}
use zem.Server.Tcp.{TcpServer, make_tcp_server, session_handlers}
use zem.Server.Paired.{
  Paired, Paired-append, Paired-change_at, Paired-weaken, Paired-All, both_cases,
}
use zem.Server.System.{
  System, made, shut_each, sessions_after, MovesOne, this_one, another, server_moves, session_moves,
  SystemReach, begin, next,
}

module _ {World : Type 0} (e : BigEndian) (handlers : List (Handler World)) where
  -- The session is one that comes about, and if `Stop` has called its `Shutdown`, it is closed.
  pub record Holds (en : Entry) (s : TcpSession) : Type 0 where
    pub reached : Session.Reach e handlers s
    pub obeys : en.asked ≡ true → s.is_closed ≡ true

  or_false : (b c : Bool) → c ≡ false → (b || c) ≡ true → b ≡ true
  or_false true c h p = refl
  or_false false c h p = cc

  shut-Holds :
      (en : Entry) (s : TcpSession)
      → Holds en s
      → Holds (shut en) (if en.listed && en.alive then shutdown s else s)
  unfolding shut
  shut-Holds en s v =
      if_cases (Holds (shut en)) (en.listed && en.alive) _ _
        (λ h. record {
          reached = Session.next v.reached Session.closes;
          obeys = λ a. shutdown-is_closed s;
        })
        (λ h. record {
          reached = v.reached;
          obeys = λ a. v.obeys (or_false en.asked (en.listed && en.alive) h a);
        })

  shut_each-Holds :
      (ens : List Entry) (ss : List TcpSession)
      → Paired Holds ens ss
      → Paired Holds (map shut ens) (shut_each ens ss)
  unfolding shut_each
  shut_each-Holds [] [] v = tt
  shut_each-Holds [] (s ∷ ss) v = absurd v
  shut_each-Holds (en ∷ ens) [] v = absurd v
  shut_each-Holds (en ∷ ens) (s ∷ ss) v = (shut-Holds en s v.0, shut_each-Holds ens ss v.1)

  Holds-fresh : (en : Entry) (now : ℕ) → en.asked ≡ false → Holds en (start_handling now)
  Holds-fresh en now a = record { reached = Session.begin now; obeys = λ h. cc }

  stop-sessions : (b : Server) → (stop b).sessions ≡ b.sessions
  unfolding stop
  stop-sessions b =
      if_cases (λ (c : Server). c.sessions ≡ b.sessions) b.is_stopped _ _ (λ h. refl) (λ h. refl)

  abbrev Fits : Server → List TcpSession → Type 0
  Fits b ss = Paired Holds b.sessions ss

  -- An accept, with what it does to the server and to the sessions.
  on_outcome-Fits :
      (outcome : Accepted) (meanwhile : Bool) (now : ℕ) (b : Server) (ss : List TcpSession)
      → Fits b ss
      → Fits (on_outcome outcome meanwhile b) (made outcome now ss)
  unfolding on_outcome made start_acceptor
  on_outcome-Fits refused meanwhile now b ss v = v
  on_outcome-Fits threw_before meanwhile now b ss v = v
  on_outcome-Fits threw_after meanwhile now b ss v =
      Paired-append Holds b.sessions ss lost_entry (start_handling now) v
        (Holds-fresh lost_entry now refl)
  on_outcome-Fits accepted meanwhile now b ss v =
      let added : Server = record b { sessions = b.sessions ++ started_entry ∷ [] } in
      let w : Paired Holds added.sessions (ss ++ start_handling now ∷ []) =
        Paired-append Holds b.sessions ss started_entry (start_handling now) v
          (Holds-fresh started_entry now refl) in
      if_cases (λ (c : Server). Paired Holds c.sessions (ss ++ start_handling now ∷ [])) meanwhile
        (start_acceptor (stop added)) (start_acceptor added)
        (λ h.
          subst (λ ens. Paired Holds ens (ss ++ start_handling now ∷ []))
            (sym (stop-sessions added)) w)
        (λ h. w)

  Step-Fits :
      {b c : Server} (st : Step b c) (now : ℕ) (ss : List TcpSession)
      → Fits b ss
      → Fits c (sessions_after st now ss)
  unfolding sessions_after run start_acceptor on_accept run_stop release erase
  Step-Fits (runs h) now ss v = v
  Step-Fits (starts h) now ss v = v
  Step-Fits {b} (accepts outcome meanwhile h) now ss v =
      both_cases (λ (c : Server) x. Paired Holds c.sessions x) b.is_stopped _ _ _ _ (λ k. v)
        (λ k. on_outcome-Fits outcome meanwhile now b ss v)
  Step-Fits (retries h) now ss v = v
  Step-Fits {b} stops now ss v = subst (λ ens. Paired Holds ens ss) (sym (stop-sessions b)) v
  Step-Fits {b} (runs_stop h) now ss v = shut_each-Holds b.sessions ss v
  Step-Fits {b} (releases n) now ss v =
      Paired-change_at Holds release (λ en s p. record { reached = p.reached; obeys = p.obeys }) n
        b.sessions ss v
  Step-Fits {b} (erases n) now ss v =
      Paired-change_at Holds erase
        (λ en s p.
          if_cases (λ (x : Entry). Holds x s) en.alive _ _ (λ h. p)
            (λ h. record { reached = p.reached; obeys = p.obeys }))
        n b.sessions ss v

  -- A closed session stays closed.
  session-Holds :
      (en : Entry) {s t : TcpSession} → Session.Step e handlers s t → Holds en s → Holds en t
  session-Holds en st v = record {
    reached = Session.next v.reached st;
    obeys = λ a. (closed-final e handlers v.reached (v.obeys a) (Session.after Session.here st)).0;
  }

  MovesOne-Holds :
      {ens : List Entry} {ss ts : List TcpSession}
      → MovesOne e handlers ens ss ts
      → Paired Holds ens ss
      → Paired Holds ens ts
  MovesOne-Holds (this_one {en} a st) v = (session-Holds en st v.0, v.1)
  MovesOne-Holds (another m) v = (v.0, MovesOne-Holds m v.1)

module _ {World : Type 0} (e : BigEndian) (server : TcpServer World) where
  -- The server of a system moves as a server, keeps its use case, and its sessions fit.
  record Fitting (y : System World) : Type 0 where
    usecase : y.server.login_usecase ≡ server.login_usecase
    moved : Later server.base y.server.base
    fits : Paired (Holds e (session_handlers server)) y.server.base.sessions y.sessions

  SystemReach-Fitting :
      {y : System World} → SystemReach e server y → server.base.sessions ≡ [] → Fitting y
  SystemReach-Fitting begin none_yet = record {
    usecase = refl;
    moved = here;
    fits = subst (λ ens. Paired (Holds e (session_handlers server)) ens []) (sym none_yet) tt;
  }
  SystemReach-Fitting (next {y} r (server_moves st now)) none_yet =
      let v = SystemReach-Fitting r none_yet in
      record {
        usecase = v.usecase;
        moved = after v.moved st;
        fits = Step-Fits e (session_handlers server) st now y.sessions v.fits;
      }
  SystemReach-Fitting (next {y} r (session_moves {ss} m)) none_yet =
      let v = SystemReach-Fitting r none_yet in
      record {
        usecase = v.usecase;
        moved = v.moved;
        fits =
            MovesOne-Holds e (session_handlers server)
              (subst (λ u. MovesOne e (make_handlers u) y.server.base.sessions y.sessions ss)
                v.usecase m)
              v.fits;
      }

-- A session of the server that is gone, or closed.
abbrev pub Over : Entry → TcpSession → Type 0
Over en s = (en.alive ≡ false) ⊎ (s.is_closed ≡ true)

-- A server that `BuildServer` has made.
abbrev pub new_server : {World : Type 0} → ℕ → Option (LoginPort World) → ℕ → ℕ → TcpServer World
new_server concurrency usecase port size = make_tcp_server concurrency usecase port size

module _ {World : Type 0} (e : BigEndian) (concurrency : ℕ) (usecase : Option (LoginPort World))
    (port size : ℕ) where
  no_sessions : (new_server concurrency usecase port size).base.sessions ≡ []
  unfolding make_tcp_server make_server
  no_sessions = refl

  -- In a server that runs with its sessions, the server does what it does alone, each of its entries has
  -- its session, and each session comes to nothing but what a session alone comes to, with the handlers of
  -- the server: all that holds of every reached session holds of those of a server.
  pub SystemReach-Reach :
      {y : System World}
      → SystemReach e (new_server concurrency usecase port size) y
      → Reach concurrency port size y.server.base
        × Paired
            (λ en s.
              Session.Reach e (session_handlers (new_server concurrency usecase port size)) s)
            y.server.base.sessions
            y.sessions
  unfolding make_tcp_server
  SystemReach-Reach {y} r =
      let v = SystemReach-Fitting e (new_server concurrency usecase port size) r no_sessions in
      (
        v.moved,
        Paired-weaken (Holds e (session_handlers (new_server concurrency usecase port size)))
            (λ en s.
              Session.Reach e (session_handlers (new_server concurrency usecase port size)) s)
            (λ en s h. h.reached) y.server.base.sessions y.sessions v.fits,
      )

  -- Once `Stop` has released the threads of a server, each session that it ever accepted is gone or
  -- closed, whatever the sessions did meanwhile, and however late one was accepted.
  pub stopped-closed :
      {y : System World}
      → SystemReach e (new_server concurrency usecase port size) y
      → y.server.base.guarded ≡ false
      → Paired Over y.server.base.sessions y.sessions
  stopped-closed {y} r h =
      let v = SystemReach-Fitting e (new_server concurrency usecase port size) r no_sessions in
      Paired-All (Holds e (session_handlers (new_server concurrency usecase port size))) Over
        (λ en. (en.alive ≡ false) ⊎ (en.asked ≡ true))
        (λ en s a p. elim a [ inl gone ↦ inl gone | inr asked ↦ inr (p.obeys asked) ])
        y.server.base.sessions y.sessions
        (stopped-asked concurrency port size (SystemReach-Reach r).0 h) v.fits
