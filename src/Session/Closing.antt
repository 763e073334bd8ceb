-- ===== src/Session/Closing.antt =====
-- How a session closes: once, and for good.
use zem.Base.{
  ℕ, suc, ◌≡◌, refl, sym, ap, subst, ◌∙◌, ◌⊎◌, inl, inr, Bool, true, false, Option, some, List, [],
  ◌∷◌, arith, if_cases, ◌&&◌, ◌||◌, leb,
}
use zem.Protocol.{BigEndian, TcpServiceType}
use zem.Session.State.{
  TcpSession, Task, cleanup, Batch, start_handling, shutdown, clean_up, low_water,
}
use zem.Session.Write.{completed, failed, drain, relieve, is_empty}
use zem.Session.Send.{run_frame}
use zem.Session.Read.{Handler}
use zem.Session.Steps.{Reach, Later, with_tasks}
use zem.Session.Goes.{cleanups, cleanups-append}
use zem.Session.Keeps.{MovesOf, ClosesOf, closes_of}
use zem.Session.Queue.{QueueMovesOf, completed-keeps, failed-keeps, run_frame-keeps}
use zem.Session.Invariant.{Inv, shutdown-Inv, completed-Inv, failed-Inv}
use zem.Session.Reached.{WritesOf, Later-keeps, Reach-keeps, Reach-Inv}
use zem.Session.Stream.{outgoing, outgoing-Quiet, shutdown-Quiet, outgoing-completed, Flying-some}

-- Open, closed with the cleanup on the strand, or closed with a closed socket.
abbrev pub Stage : Bool → ℕ → Bool → Type 0
Stage closed cleaning opened =
    ((closed ≡ false) × (cleaning ≡ 0) × (opened ≡ true))
    ⊎ ((closed ≡ true) × (cleaning ≡ 1) × (opened ≡ true))
    ⊎ ((closed ≡ true) × (cleaning ≡ 0) × (opened ≡ false))

pub record Once (s : TcpSession) : Type 0 where
  pub stage : Stage s.is_closed (cleanups s.tasks) s.socket_open

Once-shuts : (s : TcpSession) → Once s → Once (shutdown s)
unfolding shutdown
Once-shuts s v =
    if_cases Once s.is_closed _ _ (λ e. v)
      (λ e. record {
        stage = elim v.stage [
          | inl h ↦
              inr (inl (refl, omega (arith, cleanups-append s.tasks (cleanup ∷ []), h.1), h.2))
          | inr (inl h) ↦ cc
          | inr (inr h) ↦ cc
        ];
      })

Once-closes : ClosesOf Once
Once-closes =
    closes_of Once Once-shuts (λ s v. record { stage = v.stage })
      (λ s v. record { stage = v.stage })

Once-moves : MovesOf Once
Once-moves s tasks reading beating last_rx version expiry goes v = record {
  stage = subst (λ n. Stage s.is_closed n s.socket_open) (sym goes.counts) v.stage;
}

Once-queue : QueueMovesOf Once
Once-queue s w q p b f sent torn reading r v = record { stage = v.stage }

Once-started : (now : ℕ) → Once (start_handling now)
unfolding start_handling
Once-started now = record { stage = inl (refl, refl, refl) }

Once-cleaned :
    (s : TcpSession) (rest : List Task)
    → s.tasks ≡ cleanup ∷ rest
    → Once s
    → Once (clean_up (with_tasks s rest))
unfolding clean_up
Once-cleaned s rest e v =
    let one : cleanups s.tasks ≡ suc (cleanups rest) = ap cleanups e in
    record {
      stage = elim v.stage [
        | inl h ↦ absurd (omega (arith, one, h.1))
        | inr (inl h) ↦ inr (inr (h.0, omega (arith, one, h.1), refl))
        | inr (inr h) ↦ absurd (omega (arith, one, h.1))
      ];
    }

drain-is_closed : (s : TcpSession) → (drain s).is_closed ≡ s.is_closed
unfolding drain
drain-is_closed s =
    if_cases (λ (t : TcpSession). t.is_closed ≡ s.is_closed) (s.is_closed || is_empty s.write_queue)
      _ _ (λ h. refl) (λ h. refl)

relieve-is_closed : (s : TcpSession) → (relieve s).is_closed ≡ s.is_closed
unfolding relieve
relieve-is_closed s =
    if_cases (λ (t : TcpSession). t.is_closed ≡ s.is_closed)
      (s.backpressure && leb s.pending_bytes low_water) _ _ (λ h. refl) (λ h. refl)

-- A write that ends well neither closes nor opens.
pub completed-is_closed : (b : Batch) (s : TcpSession) → (completed b s).is_closed ≡ s.is_closed
unfolding completed
completed-is_closed b s = drain-is_closed _ ∙ relieve-is_closed _

module _ (e : BigEndian) where
  Once-writes : WritesOf e Once
  Once-writes = record {
    framed = run_frame-keeps Once Once-closes.ends Once-queue e;
    cleaned = Once-cleaned;
    written = λ b s h v. completed-keeps Once Once-closes.ends Once-queue b s v;
    unwritten = failed-keeps Once Once-closes.ends Once-queue;
  }

  -- Every session that is reached is open with an open socket, or closed with exactly one cleanup on the
  -- strand, or closed with a closed socket and no cleanup to come, however often it was shut down.
  pub Reach-Once :
      {World : Type 0} (handlers : List (Handler World)) {s : TcpSession}
      → Reach e handlers s
      → Once s
  Reach-Once handlers r =
      Reach-keeps Once Once-closes Once-moves e Once-writes handlers Once-started r

  -- A closed session, of whose output `out` is fixed.
  pub record Final (out : List ℕ) (s : TcpSession) : Type 0 where
    queue : Inv s
    closed : s.is_closed ≡ true
    output : outgoing s ≡ out

  shutdown-closed : (s : TcpSession) → s.is_closed ≡ true → (shutdown s).is_closed ≡ true
  unfolding shutdown
  shutdown-closed s c =
      if_cases (λ (t : TcpSession). t.is_closed ≡ true) s.is_closed _ _ (λ h. c) (λ h. refl)

  Final-shuts : (out : List ℕ) → (s : TcpSession) → (Final out) s → (Final out) (shutdown s)
  Final-shuts out s v = record {
    queue = shutdown-Inv s v.queue;
    closed = shutdown-closed s v.closed;
    output = outgoing-Quiet (shutdown-Quiet s) ∙ v.output;
  }

  Final-closes : (out : List ℕ) → ClosesOf (Final out)
  Final-closes out =
      closes_of (Final out) (Final-shuts out)
        (λ s v. record { queue = v.queue; closed = v.closed; output = v.output })
        (λ s v. record { queue = v.queue; closed = v.closed; output = v.output })

  Final-moves : (out : List ℕ) → MovesOf (Final out)
  Final-moves out s tasks reading beating last_rx version expiry goes v = record {
    queue = v.queue;
    closed = v.closed;
    output = v.output;
  }

  completed-closed :
      (b : Batch) (s : TcpSession) → s.is_closed ≡ true → (completed b s).is_closed ≡ true
  completed-closed b s c = completed-is_closed b s ∙ c

  pub run_frame-closed :
      (type : TcpServiceType) (body : Option (List ℕ)) (version : ℕ) (s : TcpSession)
      → s.is_closed ≡ true
      → run_frame e type body version s ≡ s
  unfolding run_frame
  run_frame-closed type body version s c =
      if_cases (λ t. t ≡ s) s.is_closed _ _ (λ h. refl) (λ h. cc)

  Final-written :
      (out : List ℕ) (b : Batch) (s : TcpSession)
      → s.flight ≡ some b
      → Final out s
      → Final out (completed b s)
  Final-written out b s h v = record {
    queue = completed-Inv s b v.queue h;
    closed = completed-closed b s v.closed;
    output =
        outgoing-completed s b
          (Flying-some e s.is_closed s.is_writing s.write_queue s.flight b h v.queue.flying)
        ∙ v.output;
  }

  Final-unwritten : (out : List ℕ) (n : ℕ) (s : TcpSession) → Final out s → Final out (failed n s)
  unfolding failed
  Final-unwritten out n s v = record {
    queue = failed-Inv n s v.queue;
    closed = shutdown-closed _ v.closed;
    output = outgoing-Quiet (shutdown-Quiet _) ∙ v.output;
  }

  Final-cleaned :
      (out : List ℕ) (s : TcpSession) (rest : List Task)
      → s.tasks ≡ cleanup ∷ rest
      → Final out s
      → Final out (clean_up (with_tasks s rest))
  unfolding clean_up
  Final-cleaned out s rest h v = record { queue = v.queue; closed = v.closed; output = v.output }

  Final-writes : (out : List ℕ) → WritesOf e (Final out)
  Final-writes out = record {
    framed = λ type body version s v.
        subst (Final out) (sym (run_frame-closed type body version s v.closed)) v;
    cleaned = Final-cleaned out;
    written = Final-written out;
    unwritten = Final-unwritten out;
  }

  -- A session that is reached and is closed stays closed, and accepts nothing more: whatever happens to it
  -- later, the bytes of the writes that ended well and of its queue are together the same.
  pub closed-final :
      {World : Type 0} (handlers : List (Handler World)) {s t : TcpSession}
      → Reach e handlers s
      → s.is_closed ≡ true
      → Later e handlers s t
      → (t.is_closed ≡ true) × (outgoing t ≡ outgoing s)
  closed-final handlers {s} r c l =
      let v =
        Later-keeps (Final (outgoing s)) (Final-closes (outgoing s)) (Final-moves (outgoing s)) e
          (Final-writes (outgoing s)) handlers l
          (record { queue = Reach-Inv e handlers r; closed = c; output = refl }) in
      (v.closed, v.output)
