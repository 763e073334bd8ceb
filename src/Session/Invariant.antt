-- ===== src/Session/Invariant.antt =====
-- What holds of the write queue between any two functions on the strand.
use zem.Base.{
  ℕ, zero, suc, ◌+◌, ◌≤◌, ◌<◌, ◌≡◌, refl, sym, ap, ◌∙◌, inl, inr, Bool, true, false, ◌&&◌, ◌||◌,
  Option, none, some, List, [], ◌∷◌, ◌++◌, arith, length, take, drop, leb, ◌≢◌, if_cases,
}
use mathlib.Core.Path.{subst}
use mathlib.Core.List.{flatten}
use zem.Protocol.{header_size}
use zem.Session.State.{
  WriteData, Batch, TcpSession, hard_cap, max_body_size, low_water, high_water, size_t_values,
  shutdown, start_handling, sub_size,
}
use zem.Session.Write.{is_empty, gather, empty_batch, drain, relieve, completed, failed}
use zem.Session.Batch.{stream, total, InArray, gather_lem}

-- No byte count wraps, and while the session is open `m_pending_bytes` is exactly what is queued.
pub record Counted (closed : Bool) (pending : ℕ) (queue : List WriteData) : Type 0 where
  pub queued : total queue ≤ pending
  pub exact : closed ≡ false → pending ≡ total queue
  pub capped : closed ≡ false → pending ≤ hard_cap
  pub bounded : pending ≤ hard_cap + max_body_size + header_size

-- `m_backpressure` follows the two water marks.
pub record Pressed (closed pressed : Bool) (pending : ℕ) : Type 0 where
  pub above_low : closed ≡ false → pressed ≡ true → low_water < pending
  pub below_high : closed ≡ false → pressed ≡ false → pending ≤ high_water

-- The write under way holds the front of the queue.
pub record InFlight (b : Batch) (queue : List WriteData) : Type 0 where
  pub some_items : 1 ≤ b.items
  pub within : b.items ≤ length queue
  pub bytes : b.bytes ≡ total (take b.items queue)
  pub content : flatten b.bufs ≡ stream (take b.items queue)
  pub array : InArray b

-- `m_is_writing` says whether a write is under way, and in an open session one is whenever there is
-- something to write.
abbrev pub Flying : Bool → Bool → List WriteData → Option Batch → Type 0
Flying closed writing queue none = (writing ≡ false) × (closed ≡ false → queue ≡ [])
Flying closed writing queue (some b) = (writing ≡ true) × InFlight b queue

pub record WriteInv (closed writing pressing : Bool) (pending : ℕ) (queue : List WriteData)
    (flight : Option Batch) : Type 0 where
  pub counted : Counted closed pending queue
  pub pressed : Pressed closed pressing pending
  pub flying : Flying closed writing queue flight

-- It speaks of no other field, so that a function which leaves these alone keeps it.
abbrev pub Inv : TcpSession → Type 0
Inv s = WriteInv s.is_closed s.is_writing s.backpressure s.pending_bytes s.write_queue s.flight

pub Inv-start : (now : ℕ) → Inv (start_handling now)
unfolding start_handling
Inv-start now = record {
  counted = record {
    queued = omega arith;
    exact = λ e. refl;
    capped = λ e. omega arith;
    bounded = omega arith;
  };
  pressed = record { above_low = λ e p. cc; below_high = λ e p. omega arith };
  flying = (refl, λ e. refl);
}

-- Closing weakens what is asked.
pub Counted-closed : {c : Bool} {p : ℕ} {q : List WriteData} → Counted c p q → Counted true p q
Counted-closed v = record {
  queued = v.queued;
  exact = λ e. cc;
  capped = λ e. cc;
  bounded = v.bounded;
}

pub Pressed-closed : (pressed : Bool) (pending : ℕ) → Pressed true pressed pending
Pressed-closed pressed pending = record { above_low = λ e p. cc; below_high = λ e p. cc }

pub Flying-closed :
    (c w : Bool) (q : List WriteData) (f : Option Batch) → Flying c w q f → Flying true w q f
Flying-closed c w q none v = (v.0, λ e. cc)
Flying-closed c w q (some b) v = v

pub shutdown-Inv : (s : TcpSession) → Inv s → Inv (shutdown s)
unfolding shutdown
shutdown-Inv s v =
    if_cases Inv s.is_closed _ _ (λ e. v)
      (λ e. record {
        counted = Counted-closed v.counted;
        pressed = Pressed-closed s.backpressure s.pending_bytes;
        flying = Flying-closed s.is_closed s.is_writing s.write_queue s.flight v.flying;
      })

-- The state of the queue before `Drain`: `m_is_writing` is set, and there is no write under way.
pub record Ready (s : TcpSession) : Type 0 where
  pub counted : Counted s.is_closed s.pending_bytes s.write_queue
  pub pressed : Pressed s.is_closed s.backpressure s.pending_bytes
  pub landed : s.flight ≡ none
  pub busy : s.is_writing ≡ true

nothing_queued : (c : Bool) (q : List WriteData) → (c || is_empty q) ≡ true → c ≡ false → q ≡ []
unfolding is_empty
nothing_queued true q h e = cc
nothing_queued false [] h e = refl
nothing_queued false (x ∷ q) h e = cc

something_queued : (c : Bool) (q : List WriteData) → (c || is_empty q) ≡ false → q ≢ []
unfolding is_empty
something_queued true q h = λ e. cc
something_queued false [] h = λ e. cc
something_queued false (x ∷ q) h = λ e. cc

-- What is gathered from a queue that is not empty is a write under way.
gather-InFlight :
    (q : List WriteData) → q ≢ [] → total q < size_t_values → InFlight (gather empty_batch q) q
unfolding flatten
gather-InFlight q ne small =
    let (g, one) = gather_lem q small in
    let count : (gather empty_batch q).items ≡ g.taken = omega (arith, g.count) in
    record {
      some_items = elim one [ inl none_left ↦ absurd (ne none_left) | inr h ↦ h ];
      within = omega (arith, count, g.within);
      bytes = g.sum ∙ omega arith ∙ ap (λ n. total (take n q)) (sym count);
      content = g.content ∙ ap (λ n. stream (take n q)) (sym count);
      array = g.array;
    }

pub drain-Inv : (s : TcpSession) → Ready s → Inv (drain s)
unfolding drain
drain-Inv s v =
    if_cases Inv (s.is_closed || is_empty s.write_queue) _ _
      (λ e. record {
        counted = v.counted;
        pressed = v.pressed;
        flying =
            subst (Flying s.is_closed false s.write_queue) (sym v.landed)
              (refl, nothing_queued s.is_closed s.write_queue e);
      })
      (λ e. record {
        counted = v.counted;
        pressed = v.pressed;
        flying = (
          v.busy,
          gather-InFlight s.write_queue (something_queued s.is_closed s.write_queue e)
              (omega (arith, v.counted.queued, v.counted.bounded)),
        );
      })

pub total-take-drop : (n : ℕ) (q : List WriteData) → total (take n q) + total (drop n q) ≡ total q
total-take-drop zero q = omega arith
total-take-drop (suc n) [] = omega arith
total-take-drop (suc n) (it ∷ q) = omega (arith, total-take-drop n q)

-- What the completion handler leaves before it looks at the water mark.
abbrev unloaded : Batch → TcpSession → TcpSession
unloaded b s = record s {
  flight = none;
  sent = s.sent ++ flatten b.bufs;
  write_queue = drop b.items s.write_queue;
  pending_bytes = sub_size s.pending_bytes b.bytes;
}

pub unloaded-Counted :
    (b : Batch) (c : Bool) (p : ℕ) (q : List WriteData)
    → Counted c p q
    → InFlight b q
    → Counted c (sub_size p b.bytes) (drop b.items q) × (sub_size p b.bytes ≤ p)
unloaded-Counted b c p q v f =
    let split = total-take-drop b.items q in
    (
      record {
        queued = omega (arith, split, f.bytes, v.queued, v.bounded);
        exact = λ e. omega (arith, split, f.bytes, v.queued, v.bounded, v.exact e);
        capped = λ e. omega (arith, split, f.bytes, v.queued, v.bounded, v.capped e);
        bounded = omega (arith, split, f.bytes, v.queued, v.bounded);
      },
      omega (arith, split, f.bytes, v.queued, v.bounded),
    )

pub relieve-Ready :
    (s : TcpSession)
    → Counted s.is_closed s.pending_bytes s.write_queue
    → (s.is_closed ≡ false → s.backpressure ≡ false → s.pending_bytes ≤ high_water)
    → s.flight ≡ none
    → s.is_writing ≡ true
    → Ready (relieve s)
unfolding relieve
relieve-Ready s v h landed busy =
    if_cases Ready (s.backpressure && leb s.pending_bytes low_water) _ _
      (λ e. record {
        counted = v;
        pressed = record { above_low = λ c p. cc; below_high = λ c p. low e };
        landed = landed;
        busy = busy;
      })
      (λ e. record {
        counted = v;
        pressed = record { above_low = λ c p. high e p; below_high = h };
        landed = landed;
        busy = busy;
      })
  where
    low : (s.backpressure && leb s.pending_bytes low_water) ≡ true → s.pending_bytes ≤ high_water
    low e = ground arith

    high :
        (s.backpressure && leb s.pending_bytes low_water) ≡ false
        → s.backpressure ≡ true
        → low_water < s.pending_bytes
    high e p = ground arith

-- A write that ends well leaves the queue without what it held, and starts the next one.
pub completed-Inv : (s : TcpSession) (b : Batch) → Inv s → s.flight ≡ some b → Inv (completed b s)
unfolding completed
completed-Inv s b v e =
    let (busy, held) = subst (Flying s.is_closed s.is_writing s.write_queue) e v.flying in
    let (counted, less) =
      unloaded-Counted b s.is_closed s.pending_bytes s.write_queue v.counted held in
    drain-Inv (relieve (unloaded b s)) (
      relieve-Ready (unloaded b s) counted (λ c p. omega (arith, less, v.pressed.below_high c p))
        refl busy)

-- A write that fails closes the session.
pub failed-Inv : (n : ℕ) (s : TcpSession) → Inv s → Inv (failed n s)
unfolding failed shutdown
failed-Inv n s v =
    if_cases Inv s.is_closed _ _
      (λ e. record { counted = v.counted; pressed = v.pressed; flying = (refl, λ c. cc) })
      (λ e. record {
        counted = Counted-closed v.counted;
        pressed = Pressed-closed s.backpressure s.pending_bytes;
        flying = (refl, λ c. cc);
      })
