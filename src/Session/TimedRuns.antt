-- ===== src/Session/TimedRuns.antt =====
-- A silent session: its heartbeat starts a millisecond after it, and fires half a second late.
use zem.Base.{◌+◌, ◌≤◌, ◌<◌, ◌≡◌, refl, inl, inr, false, arith}
use zem.Protocol.Runs.{digits}
use zem.Session.State.{TcpSession, hard_idle, interval, max_jitter, start_handling}
use zem.Session.Heartbeat.{beat}
use zem.Session.Steps.{starts_beating}
use zem.Session.Clock.{TimedReach, starts_at, later, Prompt}
use zem.Session.Timed.{open-heard}
use zem.Session.Runs.{fresh, no_handlers}

abbrev asleep : TcpSession
asleep = beat 1001 7 fresh

fresh-Prompt : Prompt 1000 1001 fresh
unfolding start_handling
fresh-Prompt = record { starts = λ h. omega arith; fires = λ w. elim w [ inl h ↦ cc | inr h ↦ cc ] }

asleep-TimedReach : TimedReach digits no_handlers 1000 1001 asleep
unfolding start_handling
asleep-TimedReach =
    later 1001 (starts_at 1000) (omega arith) fresh-Prompt
      (starts_beating 1001 7 refl (omega arith)) refl

asleep-Prompt : Prompt 1000 31500 asleep
unfolding beat start_handling
asleep-Prompt = record { starts = λ h. cc; fires = λ w. omega arith }

asleep-is_open : asleep.is_closed ≡ false
unfolding beat start_handling
asleep-is_open = refl

open-heard_example :
    (asleep.last_rx ≤ 31500) × (31500 < asleep.last_rx + hard_idle + interval + max_jitter + 1000)
open-heard_example =
    open-heard digits no_handlers 1000 (omega arith) 31500 asleep-TimedReach (omega arith)
      asleep-Prompt asleep-is_open
