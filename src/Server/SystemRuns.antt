-- ===== src/Server/SystemRuns.antt =====
-- A server that accepts a client, whose session then starts to read, and that is stopped.
use zem.Base.{◌≡◌, refl, false, none, ℕ, Option, List, [], ◌∷◌}
use zem.Login.{LoginPort}
use zem.Protocol.Runs.{digits}
use zem.Session.State.{TcpSession, start_handling}
use zem.Session.Read.{read_next}
use zem.Session.Steps as Session
use zem.Server.Acceptor.{
  Server, accepted, make_server, run, start_acceptor, stop, on_accept, on_outcome, run_stop,
}
use zem.Server.Steps.{runs, starts, accepts, stops, runs_stop}
use zem.Server.Tcp.{make_tcp_server}
use zem.Server.System.{
  System, SystemReach, begin, next, server_moves, session_moves, this_one, with_base,
  sessions_after, made, shut_each,
}
use zem.Server.Paired.{Paired}
use zem.Server.Together.{Over, new_server, stopped-closed}

abbrev no_usecase : Option (LoginPort ℕ)
no_usecase = none

abbrev with_server : Server → List TcpSession → System ℕ
with_server b ss = record { server = with_base (new_server 8 no_usecase 80 0) b; sessions = ss }

abbrev listening : Server
listening = start_acceptor (run (make_server 8 80 0))

abbrev serving : Server
serving = on_accept accepted false listening

abbrev stopping : Server
stopping = stop serving

abbrev over : System ℕ
over =
    with_server (run_stop stopping)
      (shut_each stopping.sessions (read_next (start_handling 5) ∷ []))

listening-Reach : SystemReach digits (new_server 8 no_usecase 80 0) (with_server listening [])
unfolding make_tcp_server make_server run sessions_after
listening-Reach = next (next begin (server_moves (runs refl) 0)) (server_moves (starts refl) 1)

serving-Reach :
    SystemReach digits (new_server 8 no_usecase 80 0) (with_server serving (start_handling 5 ∷ []))
unfolding sessions_after made start_acceptor run make_server
serving-Reach = next listening-Reach (server_moves (accepts accepted false refl) 5)

reading-Reach :
    SystemReach digits
      (new_server 8 no_usecase 80 0)
      (with_server serving (read_next (start_handling 5) ∷ []))
unfolding on_accept on_outcome start_acceptor run make_server start_handling
reading-Reach = next serving-Reach (session_moves (this_one refl (Session.starts_reading refl)))

over-Reach : SystemReach digits (new_server 8 no_usecase 80 0) over
unfolding sessions_after stop on_accept on_outcome start_acceptor run make_server
over-Reach = next (next reading-Reach (server_moves stops 6)) (server_moves (runs_stop refl) 7)

over-guarded : over.server.base.guarded ≡ false
unfolding run_stop
over-guarded = refl

stopped-closed_example : Paired Over over.server.base.sessions over.sessions
stopped-closed_example = stopped-closed digits 8 no_usecase 80 0 over-Reach over-guarded
