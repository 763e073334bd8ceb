-- ===== src/Session/Flush.antt =====
-- What is queued gets written, as long as the client takes it.
use zem.Base.{
  ℕ, zero, suc, ◌+◌, ◌≤◌, ◌≡◌, ◌≢◌, refl, sym, ap, subst, ◌∙◌, Bool, false, true, none, some, List,
  [], ◌++◌, arith, Option-cases, length, drop, append-nil, inl, inr, length-drop,
}
use zem.Protocol.{BigEndian}
use zem.Session.State.{TcpSession, Batch, resuming}
use zem.Session.Write.{completed}
use zem.Session.Read.{Handler}
use zem.Session.Steps.{Reach, next, writes}
use zem.Session.Batch.{stream, total}
use zem.Session.Invariant.{Flying, InFlight}
use zem.Session.Reached.{Reach-Inv}
use zem.Session.Stream.{outgoing, outgoing-completed, Flying-some, drain-Quiet, relieve-Quiet}
use zem.Session.Closing.{completed-is_closed}
use zem.Session.Waking.{Reach-waiting}

-- `Flushes s n t`: from `s`, the write under way ends well, and so do those that follow it, `n` in all, and
-- nothing else happens on the strand meanwhile.
pub data Flushes : TcpSession → ℕ → TcpSession → Type 0 where
  over : {s : TcpSession} → Flushes s 0 s
  write_ends :
      {s t : TcpSession} {n : ℕ} (b : Batch)
      → s.flight ≡ some b
      → Flushes (completed b s) n t
      → Flushes s (suc n) t

-- Nothing is left to write, and nothing waits for it.
pub record Written (out : List ℕ) (t : TcpSession) : Type 0 where
  pub empty_queue : t.write_queue ≡ []
  pub idle : t.is_writing ≡ false
  pub sent : t.sent ≡ out
  pub none_pending : t.pending_bytes ≡ 0
  pub relieved : t.backpressure ≡ false
  pub reads_on : t.reading ≢ resuming

completed-write_queue :
    (b : Batch) (s : TcpSession) → (completed b s).write_queue ≡ drop b.items s.write_queue
unfolding completed
completed-write_queue b s = (drain-Quiet _).queue ∙ (relieve-Quiet _).queue

not_pressed : (b : Bool) → (b ≡ true → ⊥) → b ≡ false
not_pressed false h = refl
not_pressed true h = absurd (h refl)

module _ (e : BigEndian) {World : Type 0} (handlers : List (Handler World)) where
  landed-Written :
      {s : TcpSession}
      → Reach e handlers s
      → s.is_closed ≡ false
      → s.flight ≡ none
      → Written (outgoing s) s
  landed-Written {s} r c f =
      let v = Reach-Inv e handlers r in
      let (idle, nothing) = subst (Flying s.is_closed s.is_writing s.write_queue) f v.flying in
      let pending : s.pending_bytes ≡ 0 = v.counted.exact c ∙ ap total (nothing c) in
      record {
        empty_queue = nothing c;
        idle = idle;
        sent = sym (ap (λ q. s.sent ++ stream q) (nothing c) ∙ append-nil s.sent);
        none_pending = pending;
        relieved =
            not_pressed s.backpressure (λ p. omega (arith, pending, v.pressed.above_low c p));
        reads_on = λ w. omega (arith, ap total (nothing c), (Reach-waiting e handlers r c w).1);
      }

  -- A write that ends well leaves fewer items in the queue.
  completed-fewer :
      (s : TcpSession) (b : Batch)
      → InFlight b s.write_queue
      → length (completed b s).write_queue + 1 ≤ length s.write_queue
  completed-fewer s b held = omega (
    arith,
    ap length (completed-write_queue b s),
    length-drop b.items s.write_queue,
    held.some_items,
    held.within,
  )

  abbrev Flushed : TcpSession → Type 0
  Flushed s =
      (k : ℕ) × (t : TcpSession) × Flushes s k t
      × (k ≤ length s.write_queue)
      × Written (outgoing s) t

  flush :
      (n : ℕ) {s : TcpSession}
      → length s.write_queue ≤ n
      → Reach e handlers s
      → s.is_closed ≡ false
      → Flushed s
  flush zero {s} fuel r c = elim (Option-cases s.flight) [
    | inl f ↦ (0, s, over, omega arith, landed-Written r c f)
    | inr (b, f) ↦
        let held =
          Flying-some e s.is_closed s.is_writing s.write_queue s.flight b f
            (Reach-Inv e handlers r).flying in
        absurd (omega (arith, completed-fewer s b held))
  ]
  flush (suc n) {s} fuel r c = elim (Option-cases s.flight) [
    | inl f ↦ (0, s, over, omega arith, landed-Written r c f)
    | inr (b, f) ↦
        let held =
          Flying-some e s.is_closed s.is_writing s.write_queue s.flight b f
            (Reach-Inv e handlers r).flying in
        let fewer = completed-fewer s b held in
        let (k, t, flushes, le, w) =
          flush n (omega (arith, fewer)) (next r (writes b f)) (completed-is_closed b s ∙ c) in
        (
          suc k,
          t,
          write_ends b f flushes,
          omega (arith, fewer, le),
          subst (λ out. Written out t) (outgoing-completed s b held) w,
        )
  ]

  -- From any open session that is reached, if its writes end well and nothing is sent meanwhile, at most
  -- as many writes as there are items in the queue end with everything written: the socket has been given
  -- all bytes that were going out, in order, nothing is queued or pending, backpressure is off, and
  -- `ReadLoop` does not wait for it.
  pub flush-Written :
      {s : TcpSession}
      → Reach e handlers s
      → s.is_closed ≡ false
      → (k : ℕ) × (t : TcpSession) × Flushes s k t
        × (k ≤ length s.write_queue)
        × Written (outgoing s) t
  flush-Written {s} r c = flush (length s.write_queue) (omega arith) r c
