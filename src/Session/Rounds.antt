-- ===== src/Session/Rounds.antt =====
-- How the loop of Session/Loop.antt ends.
use zem.Base.{
  ℕ, zero, suc, ◌+◌, ◌≤◌, ◌<◌, ◌≡◌, refl, ap, ◌∙◌, Option, none, some, List, arith, leb, leb→le,
  leb→lt, length, take, drop, length-take, length-drop, drop-drop, if_cases,
}
use zem.Protocol.{BigEndian, TcpServiceType, header_size}
use zem.Session.State.{
  TcpSession, Reading, starting, resuming, resumed, at_header, ended, at_body, handling, shutdown,
}
use zem.Session.Read.{
  Outcome, Handler, handler_of, read_next, resume, give_up, on_header, on_body, on_handled,
}
use zem.Session.Send.{perform_all}
use zem.Session.Steps.{
  Step, Later, here, after, starts_reading, resumes, reads_header, reads_body, handles,
}
use zem.Session.Loop.{Connection, receive, call, advance_at, advance, serve}

-- How many waits the loop can pass from here with no more bytes.
abbrev pub phase : Reading → ℕ
phase starting = 1
phase resuming = 0
phase resumed = 1
phase at_header = 0
phase ended = 0
phase (at_body t v n) = 2
phase (handling t v body) = 1

pub phase-le : (r : Reading) → phase r ≤ 2
phase-le starting = omega arith
phase-le resuming = omega arith
phase-le resumed = omega arith
phase-le at_header = omega arith
phase-le ended = omega arith
phase-le (at_body t v n) = omega arith
phase-le (handling t v body) = omega arith

phase-read_next : (s : TcpSession) → phase (read_next s).reading ≡ 0
unfolding read_next
phase-read_next s =
    if_cases (λ r. phase r ≡ 0) s.backpressure resuming at_header (λ e. refl) (λ e. refl)

phase-give_up : (s : TcpSession) → phase (give_up s).reading ≡ 0
unfolding give_up shutdown
phase-give_up s =
    if_cases (λ (t : TcpSession). phase t.reading ≡ 0) s.is_closed _ _ (λ e. refl) (λ e. refl)

phase-on_handled :
    {World : Type 0} (o : Outcome World) (s : TcpSession) → phase (on_handled o s).reading ≡ 0
unfolding on_handled
phase-on_handled o s =
    if_cases (λ (t : TcpSession). phase t.reading ≡ 0) o.threw _ _
      (λ e. phase-give_up (perform_all o.calls s)) (λ e. phase-read_next (perform_all o.calls s))

phase-resume : (s : TcpSession) → phase (resume s).reading ≡ 0
unfolding resume
phase-resume s = refl

phase-on_body :
    (t : TcpServiceType) (v : ℕ) (bytes : List ℕ) (now : ℕ) (s : TcpSession)
    → phase (on_body t v (some bytes) now s).reading ≡ 1
unfolding on_body
phase-on_body t v bytes now s = refl

-- What the loop waits for when it goes no further: its end, `m_resume_read`, a header or a body of
-- which the bytes are not all there, or a handler that is missing.
pub data Rests {World : Type 0} (handlers : List (Handler World)) (c : Connection World)
    : Type 0 where
  has_ended : c.session.reading ≡ ended → Rests handlers c
  is_held : c.session.reading ≡ resuming → Rests handlers c
  lacks_header : c.session.reading ≡ at_header → length c.input < header_size → Rests handlers c
  lacks_body :
      (t : TcpServiceType) (v n : ℕ)
      → c.session.reading ≡ at_body t v n
      → length c.input < n
      → Rests handlers c
  lacks_handler :
      (t : TcpServiceType) (v : ℕ) (body : List ℕ)
      → c.session.reading ≡ handling t v body
      → handler_of handlers t ≡ none
      → Rests handlers c

module _ {World : Type 0} where
  abbrev pub measure : Connection World → ℕ
  measure c = length c.input + phase c.session.reading

  -- One wait is over: a step of the session, which takes bytes from the front of the input.
  pub record Round (e : BigEndian) (handlers : List (Handler World)) (c d : Connection World)
      : Type 0 where
    pub steps : Step e handlers c.session d.session
    pub falls : measure d < measure c
    pub taken : ℕ
    pub left : d.input ≡ drop taken c.input

module _ (e : BigEndian) {World : Type 0} (handlers : List (Handler World)) (clock : ℕ → ℕ) where
  -- A round is over, or the loop rests.
  abbrev pub GoesOn : Connection World → Option (Connection World) → Type 0
  GoesOn c none = Rests handlers c
  GoesOn c (some d) = Round e handlers c d

  receive-GoesOn :
      (n : ℕ) (ends : List ℕ → ℕ → TcpSession → TcpSession) (c : Connection World)
      → (length c.input < n → Rests handlers c)
      → ((bytes : List ℕ) (now : ℕ)
          → length bytes ≡ n
          → Step e handlers c.session (ends bytes now c.session))
      → ((bytes : List ℕ) (now : ℕ)
          → phase (ends bytes now c.session).reading < n + phase c.session.reading)
      → GoesOn c (receive e handlers clock n ends c)
  unfolding receive
  receive-GoesOn n ends c lacks steps falls =
      if_cases (GoesOn c) (leb n (length c.input)) _ _
        (λ h.
          let enough : n ≤ length c.input = leb→le n (length c.input) h in
          record {
            steps = steps _ _ (omega (arith, length-take n c.input));
            falls = omega (
              arith,
              length-drop n c.input,
              falls (take n c.input) (clock (length (drop n c.input))),
            );
            taken = n;
            left = refl;
          })
        (λ h. lacks (leb→lt n (length c.input) h))

  stays-Round :
      (c d : Connection World)
      → Step e handlers c.session d.session
      → d.input ≡ c.input
      → phase d.session.reading < phase c.session.reading
      → Round e handlers c d
  stays-Round c d st same falls = record {
    steps = st;
    falls = omega (arith, ap length same);
    taken = 0;
    left = same;
  }

  pub advance_at-GoesOn :
      (r : Reading) (c : Connection World)
      → c.session.reading ≡ r
      → GoesOn c (advance_at e handlers clock r c)
  unfolding advance_at
  advance_at-GoesOn starting c h =
      stays-Round c (record c { session = read_next c.session }) (starts_reading h) refl
        (omega (arith, phase-read_next c.session, ap phase h))
  advance_at-GoesOn resuming c h = is_held h
  advance_at-GoesOn resumed c h =
      stays-Round c (record c { session = resume c.session }) (resumes h) refl
        (omega (arith, phase-resume c.session, ap phase h))
  advance_at-GoesOn at_header c h =
      receive-GoesOn header_size (λ bytes now. on_header e (some bytes) now) c (lacks_header h)
        (λ bytes now l. reads_header bytes now h l)
        (λ bytes now. omega (arith, phase-le (on_header e (some bytes) now c.session).reading))
  advance_at-GoesOn ended c h = has_ended h
  advance_at-GoesOn (at_body t v n) c h =
      receive-GoesOn n (λ bytes now. on_body t v (some bytes) now) c (lacks_body t v n h)
        (λ bytes now l. reads_body t v n bytes now h l)
        (λ bytes now. omega (arith, phase-on_body t v bytes now c.session, ap phase h))
  advance_at-GoesOn (handling t v body) c h = by_handler (handler_of handlers t) refl
    where
      by_handler :
          (found : Option (Handler World))
          → handler_of handlers t ≡ found
          → GoesOn c (call e handlers clock found v body c)
      by_handler none f = lacks_handler t v body h f
      by_handler (some g) f =
          let o = g v body c.world in
          stays-Round c (record c { world = o.world; session = on_handled o c.session })
            (handles t v body g c.world h f) refl
            (omega (arith, phase-on_handled o c.session, ap phase h))

  -- Where a run of the loop has come to.
  pub record Rested (c d : Connection World) : Type 0 where
    pub steps : Later e handlers c.session d.session
    pub taken : ℕ
    pub left : d.input ≡ drop taken c.input
    pub rests : Rests handlers d

  Rested-Round : {c d f : Connection World} → Round e handlers c d → Rested d f → Rested c f
  Rested-Round {c} {d} {f} r v = record {
    steps = first r.steps v.steps;
    taken = r.taken + v.taken;
    left = v.left ∙ ap (drop v.taken) r.left ∙ drop-drop r.taken v.taken c.input;
    rests = v.rests;
  }
    where
      first :
          {s t u : TcpSession} → Step e handlers s t → Later e handlers t u → Later e handlers s u
      first st here = after here st
      first st (after l st') = after (first st l) st'

  serve_from :
      (n : ℕ) (c : Connection World) → measure c < n → Rested c (serve e handlers clock n c)
  unfolding serve
  serve_from zero c h = absurd (omega arith)
  serve_from (suc n) c h =
      by_advance (advance e handlers clock c) (advance_at-GoesOn c.session.reading c refl)
        (λ d. serve_from n d)
    where
      by_advance :
          (o : Option (Connection World))
          → GoesOn c o
          → ((d : Connection World) → measure d < n → Rested d (serve e handlers clock n d))
          → Rested c
              (elim o as (λ x. Connection World) [ none ↦ c | some d ↦ serve e handlers clock n d ])
      by_advance none g ih = record { steps = here; taken = 0; left = refl; rests = g }
      by_advance (some d) g ih = Rested-Round g (ih d (omega (arith, g.falls)))

  -- The loop stops: over any bytes of a client, and whatever the handlers do, three more waits than
  -- there are bytes bring it to where it ends, waits for `m_resume_read`, lacks a part of a header
  -- or of a body, or lacks a handler. It comes there by steps of the session, and takes bytes only
  -- from the front.
  pub serve-Rested :
      (c : Connection World) → Rested c (serve e handlers clock (length c.input + 3) c)
  serve-Rested c = serve_from (length c.input + 3) c (omega (arith, phase-le c.session.reading))
