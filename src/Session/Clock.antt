-- ===== src/Session/Clock.antt =====
-- A session by the clock: every step happens at a time, times do not go back, and no timer is overdue for
-- more than a given lag.
use zem.Base.{ℕ, ◌+◌, ◌≤◌, ◌≡◌, ◌⊎◌, true, List}
use zem.Protocol.{BigEndian}
use zem.Session.State.{TcpSession, Beating, unstarted, sleeping, in_grace, start_handling}
use zem.Session.Read.{Handler}
use zem.Session.Steps.{
  Step, reads_header, fails_to_read_header, reads_body, fails_to_read_body, starts_beating, wakes,
  wakes_from_grace,
}

-- The heartbeat waits on its timer.
abbrev pub IsWaiting : Beating → Type 0
IsWaiting b = (b ≡ sleeping) ⊎ (b ≡ in_grace)

-- At `clock`, no timer is overdue for more than `lag`, and a heartbeat that was spawned longer ago has started.
pub record Prompt (lag clock : ℕ) (s : TcpSession) : Type 0 where
  pub starts : s.beating ≡ unstarted → clock ≤ s.last_rx + lag
  pub fires : IsWaiting s.beating → clock ≤ s.hb_expiry + lag

module _ (e : BigEndian) {World : Type 0} (handlers : List (Handler World)) where
  -- The step happens at `clock`. The timer's wait is only aborted in a closed session, by its cleanup.
  abbrev pub At : {s t : TcpSession} → ℕ → Step e handlers s t → Type 0
  At clock (reads_header bytes now h len) = now ≡ clock
  At clock (fails_to_read_header now h) = now ≡ clock
  At clock (reads_body type version size bytes now h len) = now ≡ clock
  At clock (fails_to_read_body type version size now h) = now ≡ clock
  At clock (starts_beating now jitter h j) = now ≡ clock
  At {s} clock (wakes aborted now jitter h j) =
      (now ≡ clock) × (aborted ≡ true → s.is_closed ≡ true)
  At {s} clock (wakes_from_grace aborted now jitter h j) =
      (now ≡ clock) × (aborted ≡ true → s.is_closed ≡ true)
  At clock st = Unit {0}

  pub data TimedReach (lag : ℕ) : ℕ → TcpSession → Type 0 where
    starts_at : (now : ℕ) → TimedReach lag now (start_handling now)
    later :
        {clock : ℕ} {s t : TcpSession} (now : ℕ)
        → TimedReach lag clock s
        → clock ≤ now
        → Prompt lag now s
        → (st : Step e handlers s t) → At now st
        → TimedReach lag now t
