-- ===== src/Session/Base.antt =====
-- Adapters/Inbound/Tcp/Base/Session.hpp: the base class of `TCPSession`. Its two fields are among those of
-- `TcpSession`: the socket, of which we know whether it is open, and what is posted to the strand.
use zem.Base.{ℕ, ◌≡◌, refl, Bool, true, false, List, [], ◌∷◌}
use zem.Session.State.{TcpSession, Task, start_handling, clean_up}

pub record Session : Type 0 where
  pub sock : Bool
  pub strand : List Task

-- The constructor.
unfoldable pub make_session : Bool → Session
make_session sock = record { sock = sock; strand = [] }

-- `Session::Shutdown`, which closes the socket at once.
unfoldable pub close_sock : Session → Session
close_sock s = record s { sock = false }

abbrev pub base_of : TcpSession → Session
base_of s = record { sock = s.socket_open; strand = s.tasks }

pub start_handling-base_of : (now : ℕ) → base_of (start_handling now) ≡ make_session true
unfolding start_handling make_session
start_handling-base_of now = refl

-- The override's cleanup does to the base what the base's own `Shutdown` does.
pub clean_up-base_of : (s : TcpSession) → base_of (clean_up s) ≡ close_sock (base_of s)
unfolding clean_up close_sock
clean_up-base_of s = refl

-- Where the program was built.
pub data Platform : Type 0 where
  windows linux elsewhere : Platform

-- What is asked of a socket: `TCP_NODELAY`, and probes of an idle peer, with times in milliseconds on
-- Windows, and in seconds and with a number of probes on Linux.
pub data SocketOption : Type 0 where
  no_delay keep_alive : Bool → SocketOption
  keepalive_vals : ℕ → ℕ → ℕ → SocketOption
  tcp_keepidle tcp_keepintvl tcp_keepcnt : ℕ → SocketOption

-- What the constructor of `TCPSession` sets on its socket, in order; it ignores every error.
abbrev pub socket_options : Platform → List SocketOption
socket_options windows = no_delay true ∷ keep_alive true ∷ keepalive_vals 1 30000 10000 ∷ []
socket_options linux =
    no_delay true
    ∷ keep_alive true
    ∷ keep_alive true
    ∷ tcp_keepidle 30
    ∷ tcp_keepintvl 10
    ∷ tcp_keepcnt 3
    ∷ []
socket_options elsewhere = no_delay true ∷ keep_alive true ∷ []
