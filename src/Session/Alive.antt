-- ===== src/Session/Alive.antt =====
-- Both coroutines of an open session go on.
use zem.Base.{ℕ, ◌≡◌, ◌≢◌, refl, sym, ◌∙◌, inl, inr, false, List, ◌∷◌}
use zem.Protocol.{BigEndian}
use zem.Session.State.{
  TcpSession, Task, cleanup, Reading, starting, resuming, resumed, at_header, ended, at_body,
  handling, stopped, start_handling, shutdown, clean_up, woken,
}
use zem.Session.Read.{Handler, give_up}
use zem.Session.Heartbeat.{expire}
use zem.Session.Steps.{Reach, with_tasks}
use zem.Session.Goes.{shutdown-is_closed}
use zem.Session.Keeps.{MovesOf, ClosesOf}
use zem.Session.Queue.{QueueMovesOf, completed-keeps, failed-keeps, run_frame-keeps}
use zem.Session.Reached.{WritesOf, Reach-keeps}

-- As long as the session is open, neither the read loop nor the heartbeat has ended.
pub record Alive (s : TcpSession) : Type 0 where
  pub reads : s.is_closed ≡ false → s.reading ≢ ended
  pub beats : s.is_closed ≡ false → s.beating ≢ stopped

woken-ended : (r : Reading) → woken r ≡ ended → r ≡ ended
unfolding woken
woken-ended starting e = cc
woken-ended resuming e = cc
woken-ended resumed e = cc
woken-ended at_header e = cc
woken-ended ended e = refl
woken-ended (at_body t v n) e = cc
woken-ended (handling t v body) e = cc

shutdown-Alive : (s : TcpSession) → Alive (shutdown s)
shutdown-Alive s = record {
  reads = λ c e. absurd (cc (c, shutdown-is_closed s));
  beats = λ c e. absurd (cc (c, shutdown-is_closed s));
}

Alive-closes : ClosesOf Alive
unfolding give_up expire
Alive-closes = record {
  ends = record {
    shuts = λ s v. shutdown-Alive s;
    gives_up = λ s v. shutdown-Alive (record s { reading = ended });
  };
  expires = λ s v. shutdown-Alive (record s { beating = stopped });
}

Alive-moves : MovesOf Alive
Alive-moves s tasks reading beating last_rx version expiry goes v = record {
  reads = λ c e. v.reads c (goes.lives e);
  beats = λ c e. elim (goes.beats e) [ inl was ↦ v.beats c was | inr closed ↦ cc ];
}

Alive-queue : QueueMovesOf Alive
Alive-queue s w q p b f sent torn reading r v = record {
  reads = λ c e. elim r [
    | inl same ↦ v.reads c (sym same ∙ e)
    | inr was ↦ v.reads c (woken-ended s.reading (sym was ∙ e))
  ];
  beats = v.beats;
}

Alive-cleaned :
    (s : TcpSession) (rest : List Task)
    → s.tasks ≡ cleanup ∷ rest
    → Alive s
    → Alive (clean_up (with_tasks s rest))
unfolding clean_up
Alive-cleaned s rest h v = record {
  reads = λ c e. v.reads c (woken-ended s.reading e);
  beats = v.beats;
}

Alive-started : (now : ℕ) → Alive (start_handling now)
unfolding start_handling
Alive-started now = record { reads = λ c e. cc; beats = λ c e. cc }

module _ (e : BigEndian) where
  Alive-writes : WritesOf e Alive
  Alive-writes = record {
    framed = run_frame-keeps Alive Alive-closes.ends Alive-queue e;
    cleaned = Alive-cleaned;
    written = λ b s h v. completed-keeps Alive Alive-closes.ends Alive-queue b s v;
    unwritten = failed-keeps Alive Alive-closes.ends Alive-queue;
  }

  -- In every state that a session comes to, as long as it is open, its read loop has not ended, and its
  -- heartbeat is about to start or waits on its timer: no error, no exception and no request leaves an open
  -- session that nobody reads or watches.
  pub Reach-Alive :
      {World : Type 0} (handlers : List (Handler World)) {s : TcpSession}
      → Reach e handlers s
      → Alive s
  Reach-Alive handlers r =
      Reach-keeps Alive Alive-closes Alive-moves e Alive-writes handlers Alive-started r
