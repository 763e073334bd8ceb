-- ===== src/Server/Runs.antt =====
-- A server at concrete runs: one accepts a session and is then stopped, another loses its acceptor.
use zem.Base.{
  ℕ, ◌+◌, ◌≤◌, ◌≡◌, refl, ◌⊎◌, true, false, some, ◌↔◌, List, [], ◌∷◌, ◌++◌, All, arith, length,
}
use zem.ByteCodec.Detail.{modulus}
use zem.ByteCodec.Unsigned.{IsByte}
use zem.Protocol.{login, receiving}
use zem.Protocol.ApiVersion.{v1, is_supported_for}
use zem.Login.{LoginResult, LoginRequestDto, AccountRepository, LoginPort, success}
use zem.Login.UseCase.{make_login_use_case, login_use_case}
use zem.Login.Decoding.{FitsLengths, request_bytes}
use zem.Protocol.{header_of_bytes, to_service_type, to_code}
use zem.Protocol.Runs.{digits}
use zem.Session.State.{
  TcpSession, start_handling, at_body, handling, frame, max_body_size, hard_cap,
}
use zem.Session.Send.{run_frame, make_item}
use zem.Session.Read.{
  Handler, handler_of, on_handled, read_next, on_header, on_fields, by_type, on_request, on_body,
}
use zem.Session.Steps as Session
use zem.Session.Steps.{with_tasks}
use zem.Session.Batch.{frame_bytes}
use zem.Session.Stream.{outgoing}
use zem.Server.Tcp.{
  IoRun, threw, returned, TcpServer, make_tcp_server, session_handlers, join_all, Ends,
  join_all_iff,
}
use zem.Server.Serving.{handling-handler_of}
use zem.Server.Answering.{after_login, after_login-outgoing, reply}
use zem.Server.Acceptor.{
  Server, accepted, threw_before, make_server, run, start_acceptor, stop, run_stop, on_accept,
  for_nothing,
}
use zem.Server.Handlers.{login_handler, unhandled}
use zem.Server.Steps.{Reach, here, after, runs, starts, accepts, runs_stop}
use zem.Server.Stopping.{StopInv, Reach-StopInv}
use zem.Server.Accepting.{on_accept-threw}

abbrev listening : Server
listening = start_acceptor (run (make_server 8 80 0))

abbrev serving : Server
serving = on_accept accepted true listening

abbrev over : Server
over = run_stop serving

listening-Reach : Reach 8 80 0 listening
unfolding run make_server
listening-Reach = after (after here (runs refl)) (starts refl)

over-Reach : Reach 8 80 0 over
unfolding on_accept start_acceptor run make_server stop
over-Reach = after (after listening-Reach (accepts accepted true refl)) (runs_stop refl)

listening-is_stopped : listening.is_stopped ≡ false
unfolding start_acceptor run make_server
listening-is_stopped = refl

Reach-StopInv_example : StopInv over
Reach-StopInv_example = Reach-StopInv 8 80 0 over-Reach

on_accept-threw_example :
    ((on_accept threw_before false listening).is_stopped ≡ false)
    × ((on_accept threw_before false listening).waiting ≡ for_nothing)
on_accept-threw_example = on_accept-threw false listening listening-is_stopped here

-- One account, with an empty name and an empty password.
abbrev accounts : AccountRepository ℕ
accounts = record { get_password = λ id w. (some [], w) }

abbrev dto : LoginRequestDto
dto = record { id = []; password = [] }

dto-FitsLengths : FitsLengths dto
unfolding modulus
dto-FitsLengths = record { id = omega arith; password = omega arith }

dto-IsByte : All IsByte (request_bytes dto)
unfolding modulus
dto-IsByte = ground arith

abbrev port : LoginPort ℕ
port = login_use_case (make_login_use_case accounts)

abbrev session : TcpSession
session = start_handling 0

-- Two threads, one of which sees a handler throw twice.
abbrev two_threads : List (List IoRun)
two_threads = (threw ∷ threw ∷ returned ∷ []) ∷ (returned ∷ []) ∷ []

two_threads-length : length two_threads ≡ (make_server 8 80 2).thread_pool_size
unfolding make_server
two_threads-length = refl

join_all_iff_example :
    ((join_all two_threads ≡ true) ↔ All Ends two_threads) × (1 ≤ length two_threads)
join_all_iff_example = join_all_iff 8 80 2 two_threads two_threads-length

abbrev tcp_server : TcpServer ℕ
tcp_server = make_tcp_server 8 (some port) 80 2

-- A session of that server that has read a login of one byte.
abbrev short_header : List ℕ
short_header = 0 ∷ 0 ∷ 0 ∷ 2 ∷ 0 ∷ 0 ∷ 0 ∷ 1 ∷ 0 ∷ 1 ∷ []

abbrev asking : TcpSession
asking = on_header digits (some short_header) 1 (read_next session)

abbrev in_handler : TcpSession
in_handler = on_body login 1 (some (9 ∷ [])) 2 asking

asking_reading : asking.reading ≡ at_body login 1 1
unfolding on_header on_fields by_type on_request header_of_bytes to_service_type to_code
    is_supported_for read_next start_handling
asking_reading = refl

in_handler-Reach : Session.Reach digits (session_handlers tcp_server) in_handler
unfolding read_next start_handling
in_handler-Reach =
    Session.next
      (Session.next (Session.next (Session.begin 0) (Session.starts_reading refl))
        (Session.reads_header short_header 1 refl refl))
      (Session.reads_body login 1 1 (9 ∷ []) 2 asking_reading refl)

in_handler-handling : in_handler.reading ≡ handling login 1 (9 ∷ [])
unfolding on_body
in_handler-handling = refl

handling-handler_of_example :
    (h : Handler ℕ) × (handler_of (session_handlers tcp_server) login ≡ some h)
    × (((login ≡ login) × (h ≡ login_handler tcp_server.login_usecase))
        ⊎ ((login ≡ receiving) × (h ≡ unhandled)))
    × Session.Step digits
        (session_handlers tcp_server)
        in_handler
        (on_handled (h 1 (9 ∷ []) 0) in_handler)
handling-handler_of_example =
    handling-handler_of tcp_server digits login 1 (9 ∷ []) 0 in_handler-Reach in_handler-handling

dto-small : length (request_bytes dto) ≤ max_body_size
dto-small = omega arith

session-is_open : session.is_closed ≡ false
unfolding start_handling
session-is_open = refl

session-none_posted : session.tasks ≡ []
unfolding start_handling
session-none_posted = refl

session-room : session.pending_bytes + 14 ≤ hard_cap
unfolding start_handling
session-room = omega arith

after_login-outgoing_example :
    let done = after_login digits accounts dto 0 1 2 session in
    (r : LoginResult) × (done.tasks ≡ frame login (some (reply r)) v1 ∷ [])
    × (outgoing (run_frame digits login (some (reply r)) v1 (with_tasks done []))
        ≡ outgoing session ++ frame_bytes (make_item digits login (some (reply r)) v1))
    × ((r ≡ success) ↔ ((accounts.get_password dto.id 0).0 ≡ some dto.password))
after_login-outgoing_example =
    after_login-outgoing digits accounts dto 0 1 2 session dto-FitsLengths dto-IsByte dto-small
      session-is_open session-none_posted session-room
