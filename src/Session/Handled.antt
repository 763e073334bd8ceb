-- ===== src/Session/Handled.antt =====
-- Which bodies a session waits for, and which ones a handler is given.
use zem.Base.{ℕ, ◌≡◌, sym, subst, inl, inr, List, ◌∷◌, length, if_cases}
use zem.Protocol.{BigEndian, TcpServiceType}
use zem.Session.State.{
  TcpSession, Task, cleanup, Reading, starting, resuming, resumed, at_header, ended, at_body,
  handling, start_handling, shutdown, clean_up, woken,
}
use zem.Session.Read.{Handler}
use zem.Session.Steps.{Reach, with_tasks}
use zem.Session.Requests.{Request}
use zem.Session.Keeps.{MovesOf, ClosesOf, closes_of}
use zem.Session.Queue.{QueueMovesOf, completed-keeps, failed-keeps, run_frame-keeps}
use zem.Session.Reached.{WritesOf, Reach-keeps}

-- The session waits only for the body of a request, and a handler is given the body of one.
pub record Proper (r : Reading) : Type 0 where
  pub asked : (t : TcpServiceType) (v n : ℕ) → r ≡ at_body t v n → Request t v n
  pub given :
      (t : TcpServiceType) (v : ℕ) (body : List ℕ)
      → r ≡ handling t v body
      → Request t v (length body)

abbrev Handled : TcpSession → Type 0
Handled s = Proper s.reading

woken-Proper : (r : Reading) → Proper r → Proper (woken r)
unfolding woken
woken-Proper starting v = v
woken-Proper resuming v = record { asked = λ t w n e. cc; given = λ t w body e. cc }
woken-Proper resumed v = v
woken-Proper at_header v = v
woken-Proper ended v = v
woken-Proper (at_body t w n) v = v
woken-Proper (handling t w body) v = v

Handled-shuts : (s : TcpSession) → Handled s → Handled (shutdown s)
unfolding shutdown
Handled-shuts s v = if_cases Handled s.is_closed _ _ (λ e. v) (λ e. v)

Handled-closes : ClosesOf Handled
Handled-closes =
    closes_of Handled Handled-shuts
      (λ s v. record { asked = λ t w n e. cc; given = λ t w body e. cc }) (λ s v. v)

Handled-moves : MovesOf Handled
Handled-moves s tasks reading beating last_rx version expiry goes v = record {
  asked =
      λ t w n e. elim (goes.asks t w n e) [ inl same ↦ v.asked t w n same | inr request ↦ request ];
  given = λ t w body e. elim (goes.handles t w body e) [
    | inl same ↦ v.given t w body same
    | inr was ↦ v.asked t w (length body) was
  ];
}

Handled-queue : QueueMovesOf Handled
Handled-queue s w q p b f sent torn reading r v = elim r [
  | inl same ↦ subst Proper (sym same) v
  | inr was ↦ subst Proper (sym was) (woken-Proper s.reading v)
]

Handled-cleaned :
    (s : TcpSession) (rest : List Task)
    → s.tasks ≡ cleanup ∷ rest
    → Handled s
    → Handled (clean_up (with_tasks s rest))
unfolding clean_up
Handled-cleaned s rest h v = woken-Proper s.reading v

Handled-started : (now : ℕ) → Handled (start_handling now)
unfolding start_handling
Handled-started now = record { asked = λ t v n e. cc; given = λ t v body e. cc }

module _ (e : BigEndian) where
  Handled-writes : WritesOf e Handled
  Handled-writes = record {
    framed = run_frame-keeps Handled Handled-closes.ends Handled-queue e;
    cleaned = Handled-cleaned;
    written = λ b s h v. completed-keeps Handled Handled-closes.ends Handled-queue b s v;
    unwritten = failed-keeps Handled Handled-closes.ends Handled-queue;
  }

  -- In every state that a session comes to, a body for which it waits, and a body that a handler is given,
  -- is that of a `Login` or a `Receiving` request of version 1 and has between 1 byte and 2 MB.
  pub Reach-Proper :
      {World : Type 0} (handlers : List (Handler World)) {s : TcpSession}
      → Reach e handlers s
      → Proper s.reading
  Reach-Proper handlers r =
      Reach-keeps Handled Handled-closes Handled-moves e Handled-writes handlers Handled-started r
