-- ===== src/Session/Stuck.antt =====
-- A read loop that waits for ever.
use zem.Base.{
  ℕ, ◌-◌, ◌≡◌, sym, ap, ◌∙◌, Bool, true, none, Option, List, [], ◌∷◌, leb, arith, if_cases,
}
use zem.Protocol.{BigEndian, TcpServiceType, ping}
use zem.Session.State.{TcpSession, Task, frame, resuming, hard_idle, soft_idle, shutdown}
use zem.Session.Send.{send_frame, send_ping, run_frame}
use zem.Session.Read.{Handler}
use zem.Session.Heartbeat.{beat, expire, probe, on_interval, on_grace}
use zem.Session.Steps.{
  Step, Later, here, after, runs_frame, runs_cleanup, writes, fails_to_write, starts_reading,
  resumes, reads_header, fails_to_read_header, reads_body, fails_to_read_body, handles,
  starts_beating, wakes, wakes_from_grace, closes, sends, read_crashes, beat_crashes, with_tasks,
}
use zem.Session.Goes.{cleanups, cleanups-append}
use zem.Session.Closing.{run_frame-closed}

-- The read loop waits on `m_resume_read`, and nothing that could cancel it is to come: the session is
-- closed, its cleanup is over, and no write is under way.
pub record Stuck (s : TcpSession) : Type 0 where
  pub waits : s.reading ≡ resuming
  pub closed : s.is_closed ≡ true
  pub cleaned : cleanups s.tasks ≡ 0
  pub landed : s.flight ≡ none

shutdown-Stuck : (s : TcpSession) → Stuck s → Stuck (shutdown s)
unfolding shutdown
shutdown-Stuck s v = if_cases Stuck s.is_closed _ _ (λ e. v) (λ e. absurd (cc (v.closed)))

send_frame-Stuck :
    (type : TcpServiceType) (body : Option (List ℕ)) (version : ℕ) (s : TcpSession)
    → Stuck s
    → Stuck (send_frame type body version s)
unfolding send_frame
send_frame-Stuck type body version s v = record {
  waits = v.waits;
  closed = v.closed;
  cleaned = omega (arith, cleanups-append s.tasks (frame type body version ∷ []), v.cleaned);
  landed = v.landed;
}

beat-Stuck : (now jitter : ℕ) (s : TcpSession) → Stuck s → Stuck (beat now jitter s)
unfolding beat
beat-Stuck now jitter s v =
    if_cases Stuck s.is_closed _ _
      (λ e. record { waits = v.waits; closed = v.closed; cleaned = v.cleaned; landed = v.landed })
      (λ e. record { waits = v.waits; closed = v.closed; cleaned = v.cleaned; landed = v.landed })

expire-Stuck : (s : TcpSession) → Stuck s → Stuck (expire s)
unfolding expire
expire-Stuck s v =
    shutdown-Stuck _
      (record { waits = v.waits; closed = v.closed; cleaned = v.cleaned; landed = v.landed })

probe-Stuck : (now : ℕ) (s : TcpSession) → Stuck s → Stuck (probe now s)
unfolding probe send_ping
probe-Stuck now s v =
    let w = send_frame-Stuck ping none s.peer_api_version s v in
    record { waits = w.waits; closed = w.closed; cleaned = w.cleaned; landed = w.landed }

on_grace-Stuck :
    (aborted : Bool) (now jitter : ℕ) (s : TcpSession)
    → Stuck s
    → Stuck (on_grace aborted now jitter s)
unfolding on_grace
on_grace-Stuck aborted now jitter s v =
    if_cases Stuck aborted _ _ (λ e. beat-Stuck now jitter s v)
      (λ e.
        if_cases Stuck (leb hard_idle (now - s.last_rx)) _ _ (λ h. expire-Stuck s v)
          (λ h. beat-Stuck now jitter s v))

on_interval-Stuck :
    (aborted : Bool) (now jitter : ℕ) (s : TcpSession)
    → Stuck s
    → Stuck (on_interval aborted now jitter s)
unfolding on_interval
on_interval-Stuck aborted now jitter s v =
    if_cases Stuck aborted _ _ (λ e. beat-Stuck now jitter s v)
      (λ e.
        if_cases Stuck (leb hard_idle (now - s.last_rx)) _ _ (λ h. expire-Stuck s v)
          (λ h.
            if_cases Stuck (leb soft_idle (now - s.last_rx)) _ _ (λ g. probe-Stuck now s v)
              (λ g. beat-Stuck now jitter s v)))

module _ (e : BigEndian) {World : Type 0} (handlers : List (Handler World)) where
  run_frame-Stuck :
      (type : TcpServiceType) (body : Option (List ℕ)) (version : ℕ) (rest : List Task)
      (s : TcpSession)
      → s.tasks ≡ frame type body version ∷ rest
      → Stuck s
      → Stuck (run_frame e type body version (with_tasks s rest))
  run_frame-Stuck type body version rest s h v =
      rw (run_frame-closed e type body version (with_tasks s rest) v.closed) (record {
        waits = v.waits;
        closed = v.closed;
        cleaned = sym (ap cleanups h) ∙ v.cleaned;
        landed = v.landed;
      })

  Step-Stuck : {s t : TcpSession} → Step e handlers s t → Stuck s → Stuck t
  Step-Stuck {s} (runs_frame type body version rest h) v =
      run_frame-Stuck type body version rest s h v
  Step-Stuck {s} (runs_cleanup rest h) v = absurd (omega (arith, ap cleanups h, v.cleaned))
  Step-Stuck {s} (writes b h) v = absurd (cc (h, v.landed))
  Step-Stuck {s} (fails_to_write b n h) v = absurd (cc (h, v.landed))
  Step-Stuck {s} (starts_reading h) v = absurd (cc (h, v.waits))
  Step-Stuck {s} (resumes h) v = absurd (cc (h, v.waits))
  Step-Stuck {s} (reads_header bytes now h len) v = absurd (cc (h, v.waits))
  Step-Stuck {s} (fails_to_read_header now h) v = absurd (cc (h, v.waits))
  Step-Stuck {s} (reads_body type version size bytes now h len) v = absurd (cc (h, v.waits))
  Step-Stuck {s} (fails_to_read_body type version size now h) v = absurd (cc (h, v.waits))
  Step-Stuck {s} (handles type version body handler w h found) v = absurd (cc (h, v.waits))
  Step-Stuck {s} (starts_beating now jitter h j) v = beat-Stuck now jitter s v
  Step-Stuck {s} (wakes aborted now jitter h j) v = on_interval-Stuck aborted now jitter s v
  Step-Stuck {s} (wakes_from_grace aborted now jitter h j) v = on_grace-Stuck aborted now jitter s v
  Step-Stuck {s} closes v = shutdown-Stuck s v
  Step-Stuck {s} (sends type body version) v = send_frame-Stuck type body version s v
  Step-Stuck {s} (read_crashes h) v = absurd (h v.waits)
  Step-Stuck {s} beat_crashes v = expire-Stuck s v

  -- A closed session whose read loop waits on `m_resume_read`, when its cleanup has run and no write is
  -- under way, waits there in every state that it comes to, whatever happens.
  pub Later-Stuck : {s t : TcpSession} → Later e handlers s t → Stuck s → Stuck t
  Later-Stuck here v = v
  Later-Stuck (after l st) v = Step-Stuck st (Later-Stuck l v)
