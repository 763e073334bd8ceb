-- ===== src/Session/Beats.antt =====
-- The heartbeat leaves the write queue alone too: what the moves of `MovesOf` keep, and closing keeps, all of
-- its functions keep.
use zem.Base.{ℕ, ◌-◌, refl, inr, Bool, none, leb, if_cases}
use zem.Protocol.{ping}
use zem.Session.State.{TcpSession, sleeping, in_grace, stopped, hard_idle, soft_idle}
use zem.Session.Send.{send_frame, send_ping}
use zem.Session.Goes.{Goes-beating}
use zem.Session.Keeps.{MovesOf, ClosesOf, reads_of, send_frame-keeps}
use zem.Session.Heartbeat.{beat, expire, probe, on_interval, on_grace}

module _ (P : TcpSession → Type 0) (closes : ClosesOf P) (moves : MovesOf P) where
  pub beat-keeps : (now jitter : ℕ) (s : TcpSession) → P s → P (beat now jitter s)
  unfolding beat
  beat-keeps now jitter s v =
      if_cases P s.is_closed _ _
        (λ e.
          moves s s.tasks s.reading stopped s.last_rx s.peer_api_version s.hb_expiry
            (Goes-beating s s.tasks stopped refl (λ h. inr e)) v)
        (λ e.
          moves s s.tasks s.reading sleeping s.last_rx s.peer_api_version _
            (Goes-beating s s.tasks sleeping refl (λ h. cc)) v)

  pub expire-keeps : (s : TcpSession) → P s → P (expire s)
  expire-keeps s v = closes.expires s v

  probe-keeps : (now : ℕ) (s : TcpSession) → P s → P (probe now s)
  unfolding probe send_ping send_frame
  probe-keeps now s v =
      moves _ _ s.reading in_grace s.last_rx s.peer_api_version _
        (Goes-beating (send_frame ping none s.peer_api_version s) _ in_grace refl (λ h. cc))
        (send_frame-keeps P closes.ends (reads_of P moves) ping none s.peer_api_version s v)

  pub on_interval-keeps :
      (aborted : Bool) (now jitter : ℕ) (s : TcpSession)
      → P s
      → P (on_interval aborted now jitter s)
  unfolding on_interval
  on_interval-keeps aborted now jitter s v =
      if_cases P aborted _ _ (λ e. beat-keeps now jitter s v)
        (λ e.
          if_cases P (leb hard_idle (now - s.last_rx)) _ _ (λ h. expire-keeps s v)
            (λ h.
              if_cases P (leb soft_idle (now - s.last_rx)) _ _ (λ g. probe-keeps now s v)
                (λ g. beat-keeps now jitter s v)))

  pub on_grace-keeps :
      (aborted : Bool) (now jitter : ℕ) (s : TcpSession) → P s → P (on_grace aborted now jitter s)
  unfolding on_grace
  on_grace-keeps aborted now jitter s v =
      if_cases P aborted _ _ (λ e. beat-keeps now jitter s v)
        (λ e.
          if_cases P (leb hard_idle (now - s.last_rx)) _ _ (λ h. expire-keeps s v)
            (λ h. beat-keeps now jitter s v))
