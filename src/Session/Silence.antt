-- ===== src/Session/Silence.antt =====
-- How long a silent client is kept.
use zem.Base.{
  ℕ, ◌+◌, ◌-◌, ◌≤◌, ◌<◌, ◌≡◌, refl, ◌⊎◌, inl, inr, true, false, none, [], ◌∷◌, ◌++◌, arith, leb,
  leb→le, leb→lt, if_cases,
}
use zem.Protocol.{ping}
use zem.Session.State.{
  TcpSession, frame, sleeping, in_grace, stopped, interval, soft_idle, hard_idle, grace_wait,
  max_jitter, shutdown,
}
use zem.Session.Send.{send_frame, send_ping}
use zem.Session.Goes.{shutdown-is_closed}
use zem.Session.Heartbeat.{beat, expire, probe, on_interval, on_grace}

-- The session is closed after a silence of 75 seconds or more.
pub record Expired (now : ℕ) (s t : TcpSession) : Type 0 where
  silent : hard_idle ≤ now - s.last_rx
  closed : t.is_closed ≡ true
  beating : t.beating ≡ stopped

-- The heartbeat waits again, and will look before 105.5 seconds of silence are over.
pub record Waits (now : ℕ) (s t : TcpSession) : Type 0 where
  heard : now - s.last_rx < hard_idle
  still_open : t.is_closed ≡ false
  bound : t.hb_expiry < s.last_rx + hard_idle + interval + max_jitter
  later : now < t.hb_expiry
  same_rx : t.last_rx ≡ s.last_rx

-- The heartbeat sleeps, and nothing was sent.
pub record Sleeps (now : ℕ) (s t : TcpSession) : Type 0 where
  waits : Waits now s t
  beating : t.beating ≡ sleeping
  tasks : t.tasks ≡ s.tasks

-- After a silence of 45 seconds or more a `Ping` was posted, and ten seconds are given.
pub record Pinged (now : ℕ) (s t : TcpSession) : Type 0 where
  waits : Waits now s t
  silent : soft_idle ≤ now - s.last_rx
  beating : t.beating ≡ in_grace
  expiry : t.hb_expiry ≡ now + grace_wait
  tasks : t.tasks ≡ s.tasks ++ frame ping none s.peer_api_version ∷ []

shutdown-beating : (s : TcpSession) → (shutdown s).beating ≡ s.beating
unfolding shutdown
shutdown-beating s =
    if_cases (λ (t : TcpSession). t.beating ≡ s.beating) s.is_closed _ _ (λ e. refl) (λ e. refl)

expire-Expired : (now : ℕ) (s : TcpSession) → hard_idle ≤ now - s.last_rx → Expired now s (expire s)
unfolding expire
expire-Expired now s h = record {
  silent = h;
  closed = shutdown-is_closed (record s { beating = stopped });
  beating = shutdown-beating (record s { beating = stopped });
}

module _ (now jitter : ℕ) (s : TcpSession) (clock : s.last_rx ≤ now) (drawn : jitter ≤ max_jitter)
    (opened : s.is_closed ≡ false) where
  beat-Sleeps : now - s.last_rx < hard_idle → Sleeps now s (beat now jitter s)
  unfolding beat
  beat-Sleeps h =
      if_cases (Sleeps now s) s.is_closed _ _ (λ e. cc)
        (λ e. record {
          waits = record {
            heard = h;
            still_open = opened;
            bound = omega arith;
            later = omega arith;
            same_rx = refl;
          };
          beating = refl;
          tasks = refl;
        })

  probe-Pinged :
      soft_idle ≤ now - s.last_rx → now - s.last_rx < hard_idle → Pinged now s (probe now s)
  unfolding probe send_ping send_frame
  probe-Pinged soft hard = record {
    waits = record {
      heard = hard;
      still_open = opened;
      bound = omega arith;
      later = omega arith;
      same_rx = refl;
    };
    silent = soft;
    beating = refl;
    expiry = refl;
    tasks = refl;
  }

  -- When the timer of an open session's heartbeat fires, with the last bytes received not after now and a
  -- jitter of at most half a second: from 75 seconds of silence on the session is closed, from 45 on
  -- a `Ping` is posted and the timer set to ten seconds, and before it is set to the next interval.
  -- When those ten seconds are over, the session is closed from 75 seconds of silence on, and else
  -- the timer set to the next interval. A timer that is set fires later than now and before 105.5
  -- seconds of silence.
  pub on_interval_lem :
      (Expired now s (on_interval false now jitter s)
        ⊎ Pinged now s (on_interval false now jitter s)
        ⊎ ((now - s.last_rx < soft_idle) × Sleeps now s (on_interval false now jitter s)))
      × (Expired now s (on_grace false now jitter s) ⊎ Sleeps now s (on_grace false now jitter s))
  unfolding on_interval on_grace
  on_interval_lem = (
    if_cases
        (λ t. Expired now s t ⊎ Pinged now s t ⊎ ((now - s.last_rx < soft_idle) × Sleeps now s t))
        (leb hard_idle (now - s.last_rx)) _ _
        (λ e. inl (expire-Expired now s (leb→le hard_idle _ e)))
        (λ e.
          if_cases
            (λ t.
              Expired now s t ⊎ Pinged now s t ⊎ ((now - s.last_rx < soft_idle) × Sleeps now s t))
            (leb soft_idle (now - s.last_rx)) _ _
            (λ f. inr (inl (probe-Pinged (leb→le soft_idle _ f) (leb→lt hard_idle _ e))))
            (λ f. inr (inr (leb→lt soft_idle _ f, beat-Sleeps (leb→lt hard_idle _ e))))),
    if_cases (λ t. Expired now s t ⊎ Sleeps now s t) (leb hard_idle (now - s.last_rx)) _ _
        (λ e. inl (expire-Expired now s (leb→le hard_idle _ e)))
        (λ e. inr (beat-Sleeps (leb→lt hard_idle _ e))),
  )
