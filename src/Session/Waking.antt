-- ===== src/Session/Waking.antt =====
-- A read loop that waits for the queue to shrink is not forgotten.
use zem.Base.{
  ℕ, ◌-◌, ◌≤◌, ◌<◌, ◌≡◌, refl, sym, ap, ◌∙◌, inl, inr, Bool, true, false, not, ◌&&◌, ◌||◌, Option,
  none, some, List, [], ◌∷◌, ◌++◌, arith, leb, ltb, drop, if◌then◌else◌, if_cases, subst,
}
use mathlib.Core.List.{flatten}
use zem.Protocol.{BigEndian, TcpServiceType}
use zem.Session.State.{
  WriteData, Batch, Reading, starting, resuming, resumed, at_header, ended, at_body, handling,
  TcpSession, start_handling, shutdown, clean_up, woken, hard_cap, max_body_size, low_water,
  high_water, size_t_values, sub_size, add_size,
}
use zem.Session.Write.{is_empty, drain, relieve, completed, failed}
use zem.Session.Send.{size_of_body, make_item, enqueue, admit, run_frame}
use zem.Session.Read.{Handler}
use zem.Session.Steps.{Reach, with_tasks}
use zem.Session.State.{Task, cleanup}
use zem.Session.Batch.{total}
use zem.Session.Invariant.{Flying}
use zem.Session.Keeps.{MovesOf, ClosesOf, closes_of}
use zem.Session.Reached.{WritesOf, Reach-keeps, Reach-Inv}

-- While the session is open, the loop waits only under backpressure.
record Pressing (s : TcpSession) : Type 0 where
  waiting : s.reading ≡ resuming → s.is_closed ≡ false → s.backpressure ≡ true

-- `Tightens s t`: from `s` to `t` the loop stays where it is, no backpressure is relieved, and the session
-- is not opened.
record Tightens (s t : TcpSession) : Type 0 where
  reading : t.reading ≡ s.reading
  pressed : s.backpressure ≡ true → t.backpressure ≡ true
  closed : t.is_closed ≡ false → s.is_closed ≡ false

Tightens-Pressing : {s t : TcpSession} → Tightens s t → Pressing s → Pressing t
Tightens-Pressing r v = record {
  waiting = λ w c. r.pressed (v.waiting (sym r.reading ∙ w) (r.closed c));
}

Tightens-refl : (s : TcpSession) → Tightens s s
Tightens-refl s = record { reading = refl; pressed = λ h. h; closed = λ h. h }

Tightens-trans : {s t u : TcpSession} → Tightens s t → Tightens t u → Tightens s u
Tightens-trans p q = record {
  reading = q.reading ∙ p.reading;
  pressed = λ h. q.pressed (p.pressed h);
  closed = λ h. p.closed (q.closed h);
}

shutdown-Tightens : (s : TcpSession) → Tightens s (shutdown s)
unfolding shutdown
shutdown-Tightens s =
    if_cases (Tightens s) s.is_closed _ _ (λ e. Tightens-refl s)
      (λ e. record { reading = refl; pressed = λ h. h; closed = λ h. cc })

drain-Tightens : (s : TcpSession) → Tightens s (drain s)
unfolding drain
drain-Tightens s =
    if_cases (Tightens s) (s.is_closed || is_empty s.write_queue) _ _
      (λ e. record { reading = refl; pressed = λ h. h; closed = λ h. h })
      (λ e. record { reading = refl; pressed = λ h. h; closed = λ h. h })

stays_pressed : (b c : Bool) → b ≡ true → (if not b && c then true else b) ≡ true
stays_pressed true c h = refl
stays_pressed false c h = cc

enqueue-Tightens : (it : WriteData) (s : TcpSession) → Tightens s (enqueue it s)
unfolding enqueue
enqueue-Tightens it s =
    if_cases (Tightens s) (not s.is_writing) _ _
      (λ e. Tightens-trans to_writing (drain-Tightens (record queued { is_writing = true })))
      (λ e. to_queued)
  where
    queued : TcpSession
    queued = record s {
      backpressure =
          if not s.backpressure && ltb high_water s.pending_bytes then true else s.backpressure;
      write_queue = s.write_queue ++ it ∷ [];
    }

    to_queued : Tightens s queued
    to_queued = record {
      reading = refl;
      pressed = stays_pressed s.backpressure (ltb high_water s.pending_bytes);
      closed = λ h. h;
    }

    to_writing : Tightens s (record queued { is_writing = true })
    to_writing = record {
      reading = refl;
      pressed = stays_pressed s.backpressure (ltb high_water s.pending_bytes);
      closed = λ h. h;
    }

admit-Tightens : (size : ℕ) (it : WriteData) (s : TcpSession) → Tightens s (admit size it s)
unfolding admit
admit-Tightens size it s =
    if_cases (Tightens s)
      (ltb max_body_size size || ltb (size_t_values - 1 - s.pending_bytes) it.total_bytes) _ _
      (λ e. shutdown-Tightens s)
      (λ e.
        if_cases (Tightens s) (ltb hard_cap counted.pending_bytes) _ _
          (λ h. Tightens-trans to_counted (shutdown-Tightens counted))
          (λ h. Tightens-trans to_counted (enqueue-Tightens it counted)))
  where
    counted : TcpSession
    counted = record s { pending_bytes = add_size s.pending_bytes it.total_bytes }

    to_counted : Tightens s counted
    to_counted = record { reading = refl; pressed = λ h. h; closed = λ h. h }

-- A loop that was woken does not wait.
woken-resuming : (r : Reading) → woken r ≡ resuming → ⊥
unfolding woken
woken-resuming starting e = cc
woken-resuming resuming e = cc
woken-resuming resumed e = cc
woken-resuming at_header e = cc
woken-resuming ended e = cc
woken-resuming (at_body t v n) e = cc
woken-resuming (handling t v b) e = cc

relieve-Pressing : (s : TcpSession) → Pressing s → Pressing (relieve s)
unfolding relieve
relieve-Pressing s v =
    if_cases Pressing (s.backpressure && leb s.pending_bytes low_water) _ _
      (λ e. record { waiting = λ w c. absurd (woken-resuming s.reading w) }) (λ e. v)

Pressing-shuts : (s : TcpSession) → Pressing s → Pressing (shutdown s)
Pressing-shuts s v = Tightens-Pressing (shutdown-Tightens s) v

Pressing-closes : ClosesOf Pressing
Pressing-closes =
    closes_of Pressing Pressing-shuts (λ s v. record { waiting = λ w c. cc })
      (λ s v. record { waiting = v.waiting })

Pressing-moves : MovesOf Pressing
Pressing-moves s tasks reading beating last_rx version expiry waits v = record {
  waiting = λ w c. elim (waits.waits w) [ inl still ↦ v.waiting still c | inr pressed ↦ pressed ];
}

Pressing-started : (now : ℕ) → Pressing (start_handling now)
unfolding start_handling
Pressing-started now = record { waiting = λ w c. cc }

Pressing-cleaned :
    (s : TcpSession) (rest : List Task)
    → s.tasks ≡ cleanup ∷ rest
    → Pressing s
    → Pressing (clean_up (with_tasks s rest))
unfolding clean_up
Pressing-cleaned s rest h v = record { waiting = λ w c. absurd (woken-resuming s.reading w) }

Pressing-written :
    (b : Batch) (s : TcpSession) → s.flight ≡ some b → Pressing s → Pressing (completed b s)
unfolding completed
Pressing-written b s h v =
    Tightens-Pressing (drain-Tightens (relieve unloaded))
      (relieve-Pressing unloaded (record { waiting = v.waiting }))
  where
    unloaded : TcpSession
    unloaded = record s {
      flight = none;
      sent = s.sent ++ flatten b.bufs;
      write_queue = drop b.items s.write_queue;
      pending_bytes = sub_size s.pending_bytes b.bytes;
    }

Pressing-unwritten : (n : ℕ) (s : TcpSession) → Pressing s → Pressing (failed n s)
unfolding failed
Pressing-unwritten n s v = Tightens-Pressing (shutdown-Tightens _) (record { waiting = v.waiting })

module _ (e : BigEndian) where
  Pressing-framed :
      (type : TcpServiceType) (body : Option (List ℕ)) (version : ℕ) (s : TcpSession)
      → Pressing s
      → Pressing (run_frame e type body version s)
  unfolding run_frame
  Pressing-framed type body version s v =
      Tightens-Pressing
        (if_cases (Tightens s) s.is_closed _ _ (λ h. Tightens-refl s)
          (λ h. admit-Tightens (size_of_body body) (make_item e type body version) s))
        v

  Pressing-writes : WritesOf e Pressing
  Pressing-writes = record {
    framed = Pressing-framed;
    cleaned = Pressing-cleaned;
    written = Pressing-written;
    unwritten = Pressing-unwritten;
  }

  in_flight :
      (w : Bool) (q : List WriteData) (f : Option Batch)
      → Flying false w q f
      → 1 ≤ total q
      → (b : Batch) × (f ≡ some b)
  in_flight w q none v h = absurd (omega (arith, ap total (v.1 refl)))
  in_flight w q (some b) v h = (b, refl)

  -- In every open session that is reached, a read loop that waits for `m_resume_read` waits under
  -- backpressure, with more than 512 KB queued and a write under way.
  pub Reach-waiting :
      {World : Type 0} (handlers : List (Handler World)) {s : TcpSession}
      → Reach e handlers s
      → s.is_closed ≡ false
      → s.reading ≡ resuming
      → (s.backpressure ≡ true)
        × (low_water < total s.write_queue)
        × ((b : Batch) × (s.flight ≡ some b))
  Reach-waiting handlers {s} r c w =
      let pressed =
        (Reach-keeps Pressing Pressing-closes Pressing-moves e Pressing-writes handlers
            Pressing-started r).waiting
          w c in
      let v = Reach-Inv e handlers r in
      let above = v.pressed.above_low c pressed in
      let exact = v.counted.exact c in
      (
        pressed,
        omega (arith, above, exact),
        in_flight s.is_writing s.write_queue s.flight
            (subst (λ x. Flying x s.is_writing s.write_queue s.flight) c v.flying)
            (omega (arith, above, exact)),
      )
