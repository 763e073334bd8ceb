-- ===== src/Session/Torn.antt =====
-- What the socket has taken, also of a write that failed.
use zem.Base.{
  ℕ, ◌∷◌, ◌≡◌, ◌⊎◌, refl, sym, ap, ◌∙◌, subst, inl, inr, true, Option, none, some, List, [], ◌++◌,
  append_assoc, append-nil, take, drop, take-append-drop, if_cases, ◌||◌, zero, suc, Bool, not,
  ◌&&◌, ◌-◌, leb, ltb,
}
use mathlib.Core.List.{flatten}
use zem.Protocol.{BigEndian, TcpServiceType}
use zem.Session.State.{
  hard_cap, max_body_size, low_water, size_t_values, add_size, WriteData, TcpSession, Task, Batch,
  cleanup, start_handling, shutdown, clean_up,
}
use zem.Session.Write.{completed, failed, drain, relieve, is_empty, in_flight}
use zem.Session.Send.{run_frame, admit, enqueue, make_item, size_of_body}
use zem.Session.Read.{Handler}
use zem.Session.Steps.{Reach, with_tasks}
use zem.Session.Goes.{shutdown-is_closed}
use zem.Session.Batch.{stream}
use zem.Session.Invariant.{Inv, Inv-start, shutdown-Inv, completed-Inv, failed-Inv, Flying}
use zem.Session.Admission.{run_frame-Inv}
use zem.Session.Keeps.{MovesOf, ClosesOf, closes_of}
use zem.Session.Reached.{WritesOf, Reach-keeps}
use zem.Session.Stream.{stream-take-drop}
use zem.Session.Closing.{run_frame-closed}
use zem.Session.Given.{given, Reach-given}

-- No write has failed; or one has, the session is closed without a write, and the bytes of it that the
-- socket took are in front of the queue's.
abbrev Left : TcpSession → Type 0
Left s =
    (s.torn ≡ [])
    ⊎ ((s.is_closed ≡ true)
        × (s.flight ≡ none)
        × (rest : List ℕ) × (stream s.write_queue ≡ s.torn ++ rest))

-- The same, by its fields.
Left-of :
    (s t : TcpSession)
    → t.torn ≡ s.torn
    → (s.is_closed ≡ true → t.is_closed ≡ true)
    → t.flight ≡ s.flight
    → t.write_queue ≡ s.write_queue
    → Left s
    → Left t
Left-of s t same closed flight queue v = elim v [
  | inl h ↦ inl (same ∙ h)
  | inr (c, f, rest, q) ↦
      inr (closed c, flight ∙ f, rest, ap stream queue ∙ q ∙ ap (λ x. x ++ rest) (sym same))
]

-- Functions that leave `torn`.
abbrev Keeps : TcpSession → TcpSession → Type 0
Keeps s t = t.torn ≡ s.torn

shutdown-Keeps : (s : TcpSession) → Keeps s (shutdown s)
unfolding shutdown
shutdown-Keeps s = if_cases (Keeps s) s.is_closed _ _ (λ e. refl) (λ e. refl)

shutdown-flight : (s : TcpSession) → (shutdown s).flight ≡ s.flight
unfolding shutdown
shutdown-flight s =
    if_cases (λ (t : TcpSession). t.flight ≡ s.flight) s.is_closed _ _ (λ e. refl) (λ e. refl)

shutdown-write_queue : (s : TcpSession) → (shutdown s).write_queue ≡ s.write_queue
unfolding shutdown
shutdown-write_queue s =
    if_cases (λ (t : TcpSession). t.write_queue ≡ s.write_queue) s.is_closed _ _ (λ e. refl)
      (λ e. refl)

drain-Keeps : (s : TcpSession) → Keeps s (drain s)
unfolding drain
drain-Keeps s =
    if_cases (Keeps s) (s.is_closed || is_empty s.write_queue) _ _ (λ e. refl) (λ e. refl)

relieve-Keeps : (s : TcpSession) → Keeps s (relieve s)
unfolding relieve
relieve-Keeps s =
    if_cases (Keeps s) (s.backpressure && leb s.pending_bytes low_water) _ _ (λ e. refl) (λ e. refl)

completed-Keeps : (b : Batch) (s : TcpSession) → Keeps s (completed b s)
unfolding completed
completed-Keeps b s = drain-Keeps _ ∙ relieve-Keeps _

enqueue-Keeps : (it : WriteData) (s : TcpSession) → Keeps s (enqueue it s)
unfolding enqueue
enqueue-Keeps it s = if_cases (Keeps s) (not s.is_writing) _ _ (λ e. drain-Keeps _) (λ e. refl)

admit-Keeps : (size : ℕ) (it : WriteData) (s : TcpSession) → Keeps s (admit size it s)
unfolding admit
admit-Keeps size it s =
    if_cases (Keeps s)
      (ltb max_body_size size || ltb (size_t_values - 1 - s.pending_bytes) it.total_bytes) _ _
      (λ e. shutdown-Keeps s)
      (λ e.
        if_cases (Keeps s) (ltb hard_cap (add_size s.pending_bytes it.total_bytes)) _ _
          (λ h. shutdown-Keeps _) (λ h. enqueue-Keeps it _))

run_frame-Keeps :
    (e : BigEndian) (type : TcpServiceType) (body : Option (List ℕ)) (version : ℕ) (s : TcpSession)
    → Keeps s (run_frame e type body version s)
unfolding run_frame
run_frame-Keeps e type body version s =
    if_cases (Keeps s) s.is_closed _ _ (λ h. refl)
      (λ h. admit-Keeps (size_of_body body) (make_item e type body version) s)

shutdown-Left : (s : TcpSession) → Left s → Left (shutdown s)
shutdown-Left s =
    Left-of s (shutdown s) (shutdown-Keeps s) (λ c. shutdown-is_closed s) (shutdown-flight s)
      (shutdown-write_queue s)

run_frame-Left :
    (e : BigEndian) (type : TcpServiceType) (body : Option (List ℕ)) (version : ℕ) (s : TcpSession)
    → Left s
    → Left (run_frame e type body version s)
run_frame-Left e type body version s v = elim v [
  | inl h ↦ inl (run_frame-Keeps e type body version s ∙ h)
  | inr (c, f, rest, q) ↦
      subst Left (sym (run_frame-closed e type body version s c)) (inr (c, f, rest, q))
]

completed-Left : (b : Batch) (s : TcpSession) → s.flight ≡ some b → Left s → Left (completed b s)
completed-Left b s h v = elim v [ inl t ↦ inl (completed-Keeps b s ∙ t) | inr (c, f, rest, q) ↦ cc ]

-- The first bytes of the write under way are the first of the queue.
in_flight-stream :
    (n : ℕ) (closed writing : Bool) (q : List WriteData) (f : Option Batch)
    → Flying closed writing q f
    → (rest : List ℕ) × (stream q ≡ take n (in_flight f) ++ rest)
in_flight-stream zero closed writing q none v = (stream q, refl)
in_flight-stream (suc n) closed writing q none v = (stream q, refl)
in_flight-stream n closed writing q (some b) v = (
  drop n (flatten b.bufs) ++ stream (drop b.items q),
  sym (stream-take-drop b.items q)
      ∙ ap (λ x. x ++ stream (drop b.items q))
          (sym v.1.content ∙ sym (take-append-drop n (flatten b.bufs)))
      ∙ append_assoc (take n (flatten b.bufs)) (drop n (flatten b.bufs)) (stream (drop b.items q)),
)

take-nil : (n : ℕ) → take {A = ℕ} n [] ≡ []
take-nil zero = refl
take-nil (suc n) = refl

failed-Left : (n : ℕ) (s : TcpSession) → Inv s → Left s → Left (failed n s)
unfolding failed
failed-Left n s i v = elim v [
  | inl t ↦
      let (rest, q) = in_flight-stream n s.is_closed s.is_writing s.write_queue s.flight i.flying in
      inr (
        shutdown-is_closed _,
        shutdown-flight _,
        rest,
        ap stream (shutdown-write_queue _)
            ∙ q
            ∙ ap (λ x. (x ++ take n (in_flight s.flight)) ++ rest) (sym t)
            ∙ ap (λ x. x ++ rest) (sym (shutdown-Keeps _)),
      )
  | inr (c, f, rest, q) ↦ inr (
    shutdown-is_closed _,
    shutdown-flight _,
    rest,
    ap stream (shutdown-write_queue _)
        ∙ q
        ∙ ap (λ x. x ++ rest)
            (sym (
              shutdown-Keeps _
              ∙ ap (λ o. s.torn ++ take n (in_flight o)) f
              ∙ ap (λ x. s.torn ++ x) (take-nil n)
              ∙ append-nil s.torn)),
  )
]

record Tears (s : TcpSession) : Type 0 where
  queue : Inv s
  left : Left s

Tears-closes : ClosesOf Tears
Tears-closes =
    closes_of Tears
      (λ s v. record { queue = shutdown-Inv s v.queue; left = shutdown-Left s v.left })
      (λ s v. record { queue = v.queue; left = v.left })
      (λ s v. record { queue = v.queue; left = v.left })

Tears-moves : MovesOf Tears
Tears-moves s tasks reading beating last_rx version expiry goes v = record {
  queue = v.queue;
  left = v.left;
}

Tears-cleaned :
    (s : TcpSession) (rest : List Task)
    → s.tasks ≡ cleanup ∷ rest
    → Tears s
    → Tears (clean_up (with_tasks s rest))
unfolding clean_up
Tears-cleaned s rest h v = record { queue = v.queue; left = v.left }

Tears-started : (now : ℕ) → Tears (start_handling now)
unfolding start_handling
Tears-started now = record { queue = Inv-start now; left = inl refl }

Tears-writes : (e : BigEndian) → WritesOf e Tears
Tears-writes e = record {
  framed = λ type body version s v. record {
    queue = run_frame-Inv e type body version s v.queue;
    left = run_frame-Left e type body version s v.left;
  };
  cleaned = Tears-cleaned;
  written =
      λ b s h v. record { queue = completed-Inv s b v.queue h; left = completed-Left b s h v.left };
  unwritten =
      λ n s v. record { queue = failed-Inv n s v.queue; left = failed-Left n s v.queue v.left };
}

-- In every state that a session comes to, all that its socket has taken, the first bytes of a write that
-- failed included, is the beginning of the frames that the strand has run and the session accepted.
pub Reach-taken :
    (e : BigEndian) {World : Type 0} (handlers : List (Handler World)) {s : TcpSession}
    (r : Reach e handlers s)
    → (rest : List ℕ) × (given e handlers r ≡ s.sent ++ (s.torn ++ rest))
Reach-taken e handlers {s} r =
    elim (Reach-keeps Tears Tears-closes Tears-moves e (Tears-writes e) handlers Tears-started
      r).left [
        | inl h ↦ (
          stream s.write_queue,
          sym (Reach-given e handlers r) ∙ ap (λ x. s.sent ++ (x ++ stream s.write_queue)) (sym h),
        )
        | inr (c, f, rest, q) ↦ (rest, sym (Reach-given e handlers r) ∙ ap (λ x. s.sent ++ x) q)
      ]
