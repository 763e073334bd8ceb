-- ===== src/Session/Heartbeat.antt =====
-- `Heartbeat`, cut at its two waits on `m_hb_timer`. A wait is `aborted` when the timer was cancelled.
use zem.Base.{ℕ, ◌+◌, ◌-◌, Bool, leb, if◌then◌else◌}
use zem.Session.State.{
  TcpSession, sleeping, in_grace, stopped, interval, soft_idle, hard_idle, grace_wait, shutdown,
}
use zem.Session.Send.{send_ping}

-- The top of the loop, at `now` and with a draw of the jitter.
unfoldable pub beat : ℕ → ℕ → TcpSession → TcpSession
beat now jitter s =
    if s.is_closed
    then record s { beating = stopped }
    else record s { beating = sleeping; hb_expiry = now + interval + jitter }

-- `Shutdown(); co_return;`
unfoldable pub expire : TcpSession → TcpSession
expire s = shutdown (record s { beating = stopped })

-- The client has been silent for so long that it is pinged.
unfoldable pub probe : ℕ → TcpSession → TcpSession
probe now s = record (send_ping s) { beating = in_grace; hb_expiry = now + grace_wait }

-- The clock is steady, so `now` is not before `m_last_rx`.
unfoldable pub on_interval : Bool → ℕ → ℕ → TcpSession → TcpSession
on_interval aborted now jitter s =
    let idle = now - s.last_rx in
    if aborted
    then beat now jitter s
    else if leb hard_idle idle
    then expire s
    else if leb soft_idle idle
    then probe now s
    else beat now jitter s

unfoldable pub on_grace : Bool → ℕ → ℕ → TcpSession → TcpSession
on_grace aborted now jitter s =
    let idle_after_ping = now - s.last_rx in
    if aborted
    then beat now jitter s
    else if leb hard_idle idle_after_ping
    then expire s
    else beat now jitter s
