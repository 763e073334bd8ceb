-- ===== src/Session/Timed.antt =====
-- How long a session stays open with a silent client.
use zem.Base.{
  ℕ, ◌+◌, ◌-◌, ◌≤◌, ◌<◌, ◌≡◌, refl, sym, ap, ◌∙◌, ◌⊎◌, inl, inr, Bool, true, false, none, some,
  Option, List, arith, leb, leb→lt, if_cases, subst,
}
use zem.Protocol.{BigEndian}
use zem.Session.State.{
  TcpSession, Beating, unstarted, sleeping, in_grace, stopped, at_body, ended, interval, soft_idle,
  hard_idle, max_jitter, start_handling, shutdown, clean_up,
}
use zem.Session.Send.{send_frame, send_ping}
use zem.Session.Read.{Handler, give_up, on_header}
use zem.Session.Heartbeat.{beat, expire, probe, on_interval, on_grace}
use zem.Session.Steps.{
  Step, Reach, begin, next, runs_frame, runs_cleanup, writes, fails_to_write, starts_reading,
  resumes, reads_header, fails_to_read_header, reads_body, fails_to_read_body, handles,
  starts_beating, wakes, wakes_from_grace, closes, sends, read_crashes, beat_crashes, with_tasks,
}
use zem.Session.Keeps.{
  EndsOf, ReadsOf, send_frame-keeps, give_up-keeps, read_next-keeps, resume-keeps, on_header-keeps,
  on_body-keeps, on_body-keeps_error, on_handled-keeps,
}
use zem.Session.Queue.{QueueMovesOf, completed-keeps, failed-keeps, run_frame-keeps}
use zem.Session.Alive.{Reach-Alive}
use zem.Session.Clock.{IsWaiting, Prompt, At, TimedReach, starts_at, later}

-- The last bytes came in the past, and the timer of an open session fires before 105.5 seconds of silence.
pub record Timed (clock : ℕ) (s : TcpSession) : Type 0 where
  pub past : s.last_rx ≤ clock
  pub set :
      s.is_closed ≡ false
      → IsWaiting s.beating
      → s.hb_expiry < s.last_rx + hard_idle + interval + max_jitter

module _ (c : ℕ) where
  shutdown-Timed : (s : TcpSession) → Timed c s → Timed c (shutdown s)
  unfolding shutdown
  shutdown-Timed s v =
      if_cases (Timed c) s.is_closed _ _ (λ h. v) (λ h. record { past = v.past; set = λ o w. cc })

  Timed-ends : EndsOf (Timed c)
  unfolding give_up
  Timed-ends = record {
    shuts = shutdown-Timed;
    gives_up = λ s v.
        shutdown-Timed (record s { reading = ended }) (record { past = v.past; set = v.set });
  }

  Timed-reads : ReadsOf (Timed c)
  Timed-reads s tasks reading version goes v = record { past = v.past; set = v.set }

  Timed-queue : QueueMovesOf (Timed c)
  Timed-queue s w q p b f sent torn reading r v = record { past = v.past; set = v.set }

  Timed-heard : (s : TcpSession) → Timed c s → Timed c (record s { last_rx = c })
  Timed-heard s v = record { past = omega arith; set = λ o w. omega (arith, v.past, v.set o w) }

  beat-Timed :
      (jitter : ℕ) (s : TcpSession)
      → jitter ≤ max_jitter
      → (s.is_closed ≡ false → c < s.last_rx + hard_idle)
      → Timed c s
      → Timed c (beat c jitter s)
  unfolding beat
  beat-Timed jitter s j heard v =
      if_cases (Timed c) s.is_closed _ _ (λ h. record { past = v.past; set = λ o w. cc })
        (λ h. record { past = v.past; set = λ o w. omega (arith, heard h) })

  expire-Timed : (s : TcpSession) → Timed c s → Timed c (expire s)
  unfolding expire
  expire-Timed s v =
      shutdown-Timed (record s { beating = stopped })
        (record { past = v.past; set = λ o w. elim w [ inl h ↦ cc | inr h ↦ cc ] })

  probe-Timed : (s : TcpSession) → c < s.last_rx + hard_idle → Timed c s → Timed c (probe c s)
  unfolding probe send_ping send_frame
  probe-Timed s heard v = record { past = v.past; set = λ o w. omega (arith, heard) }

  on_interval-Timed :
      (aborted : Bool) (jitter : ℕ) (s : TcpSession)
      → jitter ≤ max_jitter
      → (aborted ≡ true → s.is_closed ≡ true)
      → Timed c s
      → Timed c (on_interval aborted c jitter s) × Timed c (on_grace aborted c jitter s)
  unfolding on_interval on_grace
  on_interval-Timed aborted jitter s j abort v =
      let again = λ (h : aborted ≡ true). beat-Timed jitter s j (λ o. absurd (cc (o, abort h))) v in
      let heard : leb hard_idle (c - s.last_rx) ≡ false → c < s.last_rx + hard_idle =
        λ g. omega (arith, v.past, leb→lt _ _ g) in
      (
        if_cases (Timed c) aborted _ _ again (λ h.
            if_cases (Timed c) (leb hard_idle (c - s.last_rx)) _ _ (λ g. expire-Timed s v)
              (λ g.
                if_cases (Timed c) (leb soft_idle (c - s.last_rx)) _ _
                  (λ k. probe-Timed s (heard g) v) (λ k. beat-Timed jitter s j (λ o. heard g) v))),
        if_cases (Timed c) aborted _ _ again (λ h.
            if_cases (Timed c) (leb hard_idle (c - s.last_rx)) _ _ (λ g. expire-Timed s v)
              (λ g. beat-Timed jitter s j (λ o. heard g) v)),
      )

module _ (e : BigEndian) {World : Type 0} (handlers : List (Handler World)) (lag : ℕ)
    (small : lag < hard_idle) where
  on_header-Timed :
      (bytes : Option (List ℕ)) (now c : ℕ) (s : TcpSession)
      → now ≡ c
      → Timed c s
      → Timed c (on_header e bytes now s)
  on_header-Timed bytes now c s at v =
      on_header-keeps (Timed c) (Timed-ends c) (Timed-reads c) e bytes now s v
        (subst (λ n. Timed c (record s { last_rx = n })) (sym at) (Timed-heard c s v))

  Step-Timed :
      {s t : TcpSession} (c : ℕ) (st : Step e handlers s t)
      → At e handlers c st
      → Prompt lag c s
      → Timed c s
      → Timed c t
  unfolding clean_up
  Step-Timed {s} c (runs_frame type body version rest h) at p v =
      run_frame-keeps (Timed c) (Timed-ends c) (Timed-queue c) e type body version
        (with_tasks s rest) (record { past = v.past; set = v.set })
  Step-Timed {s} c (runs_cleanup rest h) at p v = record { past = v.past; set = v.set }
  Step-Timed {s} c (writes b h) at p v =
      completed-keeps (Timed c) (Timed-ends c) (Timed-queue c) b s v
  Step-Timed {s} c (fails_to_write b n h) at p v =
      failed-keeps (Timed c) (Timed-ends c) (Timed-queue c) n s v
  Step-Timed {s} c (starts_reading h) at p v =
      read_next-keeps (Timed c) (Timed-ends c) (Timed-reads c) s v
  Step-Timed {s} c (resumes h) at p v = resume-keeps (Timed c) (Timed-ends c) (Timed-reads c) s v
  Step-Timed {s} c (reads_header bytes now h len) at p v = on_header-Timed (some bytes) now c s at v
  Step-Timed {s} c (fails_to_read_header now h) at p v = on_header-Timed none now c s at v
  Step-Timed {s} c (reads_body type version size bytes now h len) at p v =
      on_body-keeps (Timed c) (Timed-ends c) (Timed-reads c) type version bytes now s
        (h ∙ ap (at_body type version) (sym len))
        (subst (λ n. Timed c (record s { last_rx = n })) (sym at) (Timed-heard c s v))
  Step-Timed {s} c (fails_to_read_body type version size now h) at p v =
      on_body-keeps_error (Timed c) (Timed-ends c) (Timed-reads c) type version now s v
  Step-Timed {s} c (handles type version body handler w h found) at p v =
      on_handled-keeps (Timed c) (Timed-ends c) (Timed-reads c) (handler version body w) s v
  Step-Timed {s} c (starts_beating now jitter h j) at p v =
      subst (λ n. Timed c (beat n jitter s)) (sym at)
        (beat-Timed c jitter s j (λ o. omega (arith, small, p.starts h)) v)
  Step-Timed {s} c (wakes aborted now jitter h j) at p v =
      subst (λ n. Timed c (on_interval aborted n jitter s)) (sym at.0)
        (on_interval-Timed c aborted jitter s j at.1 v).0
  Step-Timed {s} c (wakes_from_grace aborted now jitter h j) at p v =
      subst (λ n. Timed c (on_grace aborted n jitter s)) (sym at.0)
        (on_interval-Timed c aborted jitter s j at.1 v).1
  Step-Timed {s} c closes at p v = shutdown-Timed c s v
  Step-Timed {s} c (sends type body version) at p v =
      send_frame-keeps (Timed c) (Timed-ends c) (Timed-reads c) type body version s v
  Step-Timed {s} c (read_crashes h) at p v =
      give_up-keeps (Timed c) (Timed-ends c) (Timed-reads c) s v
  Step-Timed {s} c beat_crashes at p v = expire-Timed c s v

  started-Timed : (now : ℕ) → Timed now (start_handling now)
  unfolding start_handling
  started-Timed now = record { past = omega arith; set = λ o w. elim w [ inl h ↦ cc | inr h ↦ cc ] }

  TimedReach-Timed : {c : ℕ} {s : TcpSession} → TimedReach e handlers lag c s → Timed c s
  TimedReach-Timed (starts_at now) = started-Timed now
  TimedReach-Timed (later now r le p st at) =
      let v = TimedReach-Timed r in
      Step-Timed now st at p (record { past = omega (arith, v.past, le); set = v.set })

  -- Nothing happens by the clock that could not happen without.
  pub TimedReach-Reach :
      {c : ℕ} {s : TcpSession} → TimedReach e handlers lag c s → Reach e handlers s
  TimedReach-Reach (starts_at now) = begin now
  TimedReach-Reach (later now r le p st at) = next (TimedReach-Reach r) st

  beating_cases : (b : Beating) → (b ≡ unstarted) ⊎ IsWaiting b ⊎ (b ≡ stopped)
  beating_cases unstarted = inl refl
  beating_cases sleeping = inr (inl (inl refl))
  beating_cases in_grace = inr (inl (inr refl))
  beating_cases stopped = inr (inr refl)

  -- If no timer, and no start of a heartbeat, is ever overdue for more than a lag of less than 75 seconds,
  -- and a wait on the timer is only aborted in a closed session, then whenever a session is open, the last
  -- bytes from its client came not after now, and less than 105.5 seconds and the lag ago: a silent client
  -- is closed by then.
  pub open-heard :
      {c : ℕ} {s : TcpSession} (now : ℕ)
      → TimedReach e handlers lag c s
      → c ≤ now
      → Prompt lag now s
      → s.is_closed ≡ false
      → (s.last_rx ≤ now) × (now < s.last_rx + hard_idle + interval + max_jitter + lag)
  open-heard {c} {s} now r le p o =
      let v = TimedReach-Timed r in
      let alive = Reach-Alive e handlers (TimedReach-Reach r) in
      (
        omega (arith, v.past, le),
        elim (beating_cases s.beating) [
          | inl h ↦ omega (arith, p.starts h)
          | inr (inl w) ↦ omega (arith, p.fires w, v.set o w)
          | inr (inr h) ↦ absurd (alive.beats o h)
        ],
      )
