-- ===== src/Session/Goes.antt =====
-- How a function of either coroutine may move the read loop and what is on the strand.
use zem.Base.{
  if_cases, arith, ℕ, suc, ◌+◌, ◌≡◌, refl, subst, ◌⊎◌, inl, inr, true, List, [], ◌∷◌, ◌++◌, length,
}
use zem.Protocol.{TcpServiceType}
use zem.Session.State.{
  shutdown, TcpSession, Task, frame, cleanup, Reading, Beating, stopped, ended, resuming, at_header,
  at_body, handling,
}
use zem.Session.Requests.{Request}

-- How many cleanups are on the strand.
abbrev pub cleanups : List Task → ℕ
cleanups [] = 0
cleanups (frame t b v ∷ ts) = cleanups ts
cleanups (cleanup ∷ ts) = suc (cleanups ts)

pub cleanups-append : (xs ys : List Task) → cleanups (xs ++ ys) ≡ cleanups xs + cleanups ys
cleanups-append [] ys = omega arith
cleanups-append (frame t b v ∷ xs) ys = cleanups-append xs ys
cleanups-append (cleanup ∷ xs) ys = omega (arith, cleanups-append xs ys)

-- What is common to all moves: no cleanup is posted or taken, the read loop only starts to wait under
-- backpressure, neither coroutine ends in an open session, the loop only asks for the body of a proper request, and only handles a body that it asked for.
pub record Goes (s : TcpSession) (tasks : List Task) (reading : Reading) (beating : Beating)
    : Type 0 where
  pub counts : cleanups tasks ≡ cleanups s.tasks
  pub waits : reading ≡ resuming → (s.reading ≡ resuming) ⊎ (s.backpressure ≡ true)
  pub asks :
      (t : TcpServiceType) (v n : ℕ)
      → reading ≡ at_body t v n
      → (s.reading ≡ at_body t v n) ⊎ Request t v n
  pub handles :
      (t : TcpServiceType) (v : ℕ) (body : List ℕ)
      → reading ≡ handling t v body
      → (s.reading ≡ handling t v body) ⊎ (s.reading ≡ at_body t v (length body))
  pub lives : reading ≡ ended → s.reading ≡ ended
  pub beats : beating ≡ stopped → (s.beating ≡ stopped) ⊎ (s.is_closed ≡ true)

pub stays :
    (s : TcpSession) (tasks : List Task)
    → cleanups tasks ≡ cleanups s.tasks
    → Goes s tasks s.reading s.beating
stays s tasks h = record {
  counts = h;
  waits = inl;
  asks = λ t v n. inl;
  handles = λ t v body. inl;
  lives = λ e. e;
  beats = inl;
}

-- The heartbeat goes on, or ends in a closed session.
pub Goes-beating :
    (s : TcpSession) (tasks : List Task) (beating : Beating)
    → cleanups tasks ≡ cleanups s.tasks
    → (beating ≡ stopped → (s.beating ≡ stopped) ⊎ (s.is_closed ≡ true))
    → Goes s tasks s.reading beating
Goes-beating s tasks beating h k = record {
  counts = h;
  waits = inl;
  asks = λ t v n. inl;
  handles = λ t v body. inl;
  lives = λ e. e;
  beats = k;
}

pub Goes-header : (s : TcpSession) → Goes s s.tasks at_header s.beating
Goes-header s = record {
  counts = refl;
  waits = λ e. cc;
  asks = λ t v n e. cc;
  handles = λ t v body e. cc;
  lives = λ e. cc;
  beats = inl;
}

pub Goes-wait : (s : TcpSession) → s.backpressure ≡ true → Goes s s.tasks resuming s.beating
Goes-wait s h = record {
  counts = refl;
  waits = λ e. inr h;
  asks = λ t v n e. cc;
  handles = λ t v body e. cc;
  lives = λ e. cc;
  beats = inl;
}

pub Goes-body :
    (s : TcpSession) (t : TcpServiceType) (v n : ℕ)
    → Request t v n
    → Goes s s.tasks (at_body t v n) s.beating
Goes-body s t v n r = record {
  counts = refl;
  waits = λ e. cc;
  asks = λ t' v' n' e. inr (same t' v' n' e);
  handles = λ t' v' body e. cc;
  lives = λ e. cc;
  beats = inl;
}
  where
    same : (t' : TcpServiceType) (v' n' : ℕ) → at_body t v n ≡ at_body t' v' n' → Request t' v' n'
    same t' v' n' e =
        let p : t ≡ t' = cc in
        let q : v ≡ v' = cc in
        let r' : n ≡ n' = cc in
        subst (λ x. Request x v' n') p (subst (λ x. Request t x n') q (subst (Request t v) r' r))

pub Goes-handler :
    (s : TcpSession) (t : TcpServiceType) (v : ℕ) (body : List ℕ)
    → s.reading ≡ at_body t v (length body)
    → Goes s s.tasks (handling t v body) s.beating
Goes-handler s t v body h = record {
  counts = refl;
  waits = λ e. cc;
  asks = λ t' v' n' e. cc;
  handles = λ t' v' body' e. inr (same t' v' body' e);
  lives = λ e. cc;
  beats = inl;
}
  where
    same :
        (t' : TcpServiceType) (v' : ℕ) (body' : List ℕ)
        → handling t v body ≡ handling t' v' body'
        → s.reading ≡ at_body t' v' (length body')
    same t' v' body' e =
        let p : t ≡ t' = cc in
        let q : v ≡ v' = cc in
        let r : body ≡ body' = cc in
        subst (λ x. s.reading ≡ at_body x v' (length body')) p
          (subst (λ x. s.reading ≡ at_body t x (length body')) q
            (subst (λ x. s.reading ≡ at_body t v (length x)) r h))

pub shutdown-is_closed : (s : TcpSession) → (shutdown s).is_closed ≡ true
unfolding shutdown
shutdown-is_closed s =
    if_cases (λ (t : TcpSession). t.is_closed ≡ true) s.is_closed _ _ (λ e. e) (λ e. refl)
