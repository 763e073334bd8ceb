-- ===== src/Server/System.antt =====
-- A server together with the sessions that it made: what the server's functions do to its sessions, and
-- the sessions' own steps in between.
use zem.Base.{ℕ, ◌≡◌, true, ◌&&◌, List, [], ◌∷◌, ◌++◌, if◌then◌else◌}
use zem.Protocol.{BigEndian}
use zem.Session.State.{TcpSession, start_handling, shutdown}
use zem.Session.Read.{Handler}
use zem.Session.Steps as Session
use zem.Server.Acceptor.{Entry, Server, Accepted, refused, threw_before, threw_after, accepted}
use zem.Server.Steps.{Step, accepts, runs_stop}
use zem.Server.Tcp.{TcpServer, session_handlers}

-- `sessions` are those of the server's entries, in the same order.
pub record System (World : Type 0) : Type 0 where
  pub server : TcpServer World
  pub sessions : List TcpSession

-- The session of an accept, which starts at `now`. One that an exception has lost never runs.
unfoldable pub made : Accepted → ℕ → List TcpSession → List TcpSession
made refused now ss = ss
made threw_before now ss = ss
made threw_after now ss = ss ++ start_handling now ∷ []
made accepted now ss = ss ++ start_handling now ∷ []

-- The loop of `Stop` over `m_sessions`, whose `lock` finds those that live.
unfoldable pub shut_each : List Entry → List TcpSession → List TcpSession
shut_each [] ss = ss
shut_each (en ∷ ens) [] = []
shut_each (en ∷ ens) (s ∷ ss) = (if en.listed && en.alive then shutdown s else s) ∷ shut_each ens ss

-- What a step of the server does to the sessions.
unfoldable pub sessions_after : {s t : Server} → Step s t → ℕ → List TcpSession → List TcpSession
unfolding made shut_each
sessions_after {s} (accepts outcome meanwhile h) now ss =
    if s.is_stopped then ss else made outcome now ss
sessions_after {s} (runs_stop h) now ss = shut_each s.sessions ss
sessions_after st now ss = ss

module _ {World : Type 0} (e : BigEndian) (handlers : List (Handler World)) where
  -- One session that lives makes a step.
  pub data MovesOne : List Entry → List TcpSession → List TcpSession → Type 0 where
    this_one :
        {en : Entry} {ens : List Entry} {s t : TcpSession} {ss : List TcpSession}
        → en.alive ≡ true
        → Session.Step e handlers s t
        → MovesOne (en ∷ ens) (s ∷ ss) (t ∷ ss)
    another :
        {en : Entry} {ens : List Entry} {s : TcpSession} {ss ts : List TcpSession}
        → MovesOne ens ss ts
        → MovesOne (en ∷ ens) (s ∷ ss) (s ∷ ts)

abbrev pub with_base : {World : Type 0} → TcpServer World → Server → TcpServer World
with_base server b = record server { base = b }

module _ {World : Type 0} (e : BigEndian) where
  pub data SystemStep (y : System World) : System World → Type 0 where
    server_moves :
        {b : Server} (st : Step y.server.base b) (now : ℕ)
        → SystemStep y
            (record { server = with_base y.server b; sessions = sessions_after st now y.sessions })
    session_moves :
        {ss : List TcpSession}
        → MovesOne e (session_handlers y.server) y.server.base.sessions y.sessions ss
        → SystemStep y (record { server = y.server; sessions = ss })

  -- The states that a new server with no sessions comes to.
  pub data SystemReach (server : TcpServer World) : System World → Type 0 where
    begin : SystemReach server (record { server = server; sessions = [] })
    next : {y z : System World} → SystemReach server y → SystemStep y z → SystemReach server z
