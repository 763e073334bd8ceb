-- ===== src/Session/State.antt =====
-- What a `TCPSession` holds: the fields of the class, and what the runtime holds for it. The latter is
-- what has been posted to the strand, the write under way, where the two coroutines wait, and the
-- socket. Times are milliseconds of the steady clock, and `std::size_t` has 64 bits.
use zem.Base.{
  ℕ, ◌+◌, ◌*◌, ◌-◌, ◌%◌, ◌^◌, Bool, true, false, Option, none, List, [], ◌∷◌, ◌++◌, if◌then◌else◌,
}
use zem.Protocol.{TcpServiceType}
use zem.Protocol.ApiVersion

-- Common/Limits.hpp
module _ where
  abbrev pub max_body_size : ℕ
  max_body_size = 2 * 1024 * 1024

  abbrev pub low_water : ℕ
  low_water = 1024 * 512

  abbrev pub high_water : ℕ
  high_water = low_water * 2

  abbrev pub hard_cap : ℕ
  hard_cap = max_body_size * 4

  abbrev pub max_batch_bytes : ℕ
  max_batch_bytes = 256 * 1024

  abbrev pub max_iov_per_write : ℕ
  max_iov_per_write = 32

-- Common/Timeouts.hpp
module _ where
  abbrev pub interval : ℕ
  interval = 30000

  abbrev pub soft_idle : ℕ
  soft_idle = 45000

  abbrev pub hard_idle : ℕ
  hard_idle = 75000

  abbrev pub grace_wait : ℕ
  grace_wait = 10000

-- `m_hb_jitter` gives 0 to 500 milliseconds.
abbrev pub max_jitter : ℕ
max_jitter = 500

-- `std::size_t`
abbrev pub size_t_values : ℕ
size_t_values = 2 ^ 64

abbrev pub add_size : ℕ → ℕ → ℕ
add_size a b = (a + b) % size_t_values

abbrev pub sub_size : ℕ → ℕ → ℕ
sub_size a b = (a + size_t_values - b) % size_t_values

-- `body` is null for a frame with no body.
pub record WriteData : Type 0 where
  pub header : List ℕ
  pub body : Option (List ℕ)
  pub total_bytes : ℕ

-- What `boost::asio::post` has put on the strand: the function of `SendFrame`, and that of `Shutdown`.
pub data Task : Type 0 where
  frame : TcpServiceType → Option (List ℕ) → ℕ → Task
  cleanup : Task

-- What `Drain` gathers: how many items, their bytes, how many entries of `bufs` are used, and these.
pub record Batch : Type 0 where
  pub items : ℕ
  pub bytes : ℕ
  pub used_iov : ℕ
  pub bufs : List (List ℕ)

-- Where `ReadLoop` is: about to start, waiting on `m_resume_read`, woken from that, waiting for a
-- header, waiting for a body of a given size, in a handler, or finished.
pub data Reading : Type 0 where
  starting resuming resumed at_header ended : Reading
  at_body : TcpServiceType → ℕ → ℕ → Reading
  handling : TcpServiceType → ℕ → List ℕ → Reading

-- Where `Heartbeat` is: about to start, in either wait on `m_hb_timer`, or finished.
pub data Beating : Type 0 where
  unstarted sleeping in_grace stopped : Beating

pub record TcpSession : Type 0 where
  pub is_writing : Bool
  pub write_queue : List WriteData
  pub pending_bytes : ℕ
  pub last_rx : ℕ
  pub backpressure : Bool
  pub peer_api_version : ℕ
  pub is_closed : Bool
  pub tasks : List Task
  pub flight : Option Batch
  pub reading : Reading
  pub beating : Beating
  pub hb_expiry : ℕ
  pub socket_open : Bool
  -- what the socket took of the writes that ended well, and of one that failed
  pub sent : List ℕ
  pub torn : List ℕ

-- The constructor, and the start of both coroutines by `StartHandling`.
unfoldable pub start_handling : ℕ → TcpSession
start_handling now = record {
  is_writing = false;
  write_queue = [];
  pending_bytes = 0;
  last_rx = now;
  backpressure = false;
  peer_api_version = ApiVersion.latest;
  is_closed = false;
  tasks = [];
  flight = none;
  reading = starting;
  beating = unstarted;
  hb_expiry = 0;
  socket_open = true;
  sent = [];
  torn = [];
}

abbrev pub post : Task → TcpSession → TcpSession
post t s = record s { tasks = s.tasks ++ t ∷ [] }

-- `m_is_closed.exchange(true)` lets only the first call post the cleanup.
unfoldable pub shutdown : TcpSession → TcpSession
shutdown s = if s.is_closed then s else post cleanup (record s { is_closed = true })

-- `m_resume_read.cancel()` ends the wait of a `ReadLoop` that waits there, and does nothing else.
unfoldable pub woken : Reading → Reading
woken resuming = resumed
woken r = r

-- The function that `Shutdown` posts. Cancelling `m_hb_timer` makes the heartbeat's wait end early,
-- which its step allows at any time.
unfoldable pub clean_up : TcpSession → TcpSession
unfolding woken
clean_up s = record s { reading = woken s.reading; socket_open = false }
