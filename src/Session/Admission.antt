-- ===== src/Session/Admission.antt =====
-- `SendFrame` keeps the invariant of the write queue.
use zem.Base.{
  ℕ, ◌+◌, ◌-◌, ◌≤◌, ◌<◌, ◌≡◌, refl, sym, ap, ◌∙◌, Bool, true, false, not, ◌&&◌, ◌||◌, Option, none,
  some, List, [], ◌∷◌, ◌++◌, arith, ltb, if◌then◌else◌, if_cases, ltb→le, length-append,
  take-append_le,
}
use mathlib.Core.Path.{subst}
use zem.Protocol.{BigEndian, TcpServiceType, header_size}
use zem.Session.State.{
  WriteData, Batch, TcpSession, hard_cap, max_body_size, low_water, high_water, size_t_values,
  add_size, shutdown,
}
use zem.Session.Send.{enqueue, admit, make_item, run_frame, size_of_body}
use zem.Session.Batch.{stream, total}
use zem.Session.Invariant.{
  Counted, Pressed, InFlight, Flying, Inv, Pressed-closed, Flying-closed, shutdown-Inv, drain-Inv,
}

total-append :
    (q : List WriteData) (it : WriteData) → total (q ++ it ∷ []) ≡ total q + it.total_bytes
total-append [] it = omega arith
total-append (x ∷ q) it = omega (arith, total-append q it)

InFlight-append :
    (b : Batch) (q : List WriteData) (it : WriteData) → InFlight b q → InFlight b (q ++ it ∷ [])
InFlight-append b q it f =
    let same = take-append_le b.items q (it ∷ []) f.within in
    record {
      some_items = f.some_items;
      within = omega (arith, f.within, length-append q (it ∷ []));
      bytes = f.bytes ∙ sym (ap total same);
      content = f.content ∙ sym (ap stream same);
      array = f.array;
    }

Flying-append :
    (c w : Bool) (q : List WriteData) (it : WriteData) (f : Option Batch)
    → w ≡ true
    → Flying c w q f
    → Flying c w (q ++ it ∷ []) f
Flying-append c w q it none on v = cc v.0
Flying-append c w q it (some b) on v = (v.0, InFlight-append b q it v.1)

not-Flying : (c : Bool) (q : List WriteData) (f : Option Batch) → Flying c false q f → f ≡ none
not-Flying c q none v = refl
not-Flying c q (some b) v = cc v.0

-- The sum is counted, and the queue, the mark and the write under way are as they were.
record Entering (item : WriteData) (s : TcpSession) : Type 0 where
  is_open : s.is_closed ≡ false
  sum : s.pending_bytes ≡ total s.write_queue + item.total_bytes
  under_cap : s.pending_bytes ≤ hard_cap
  above_low : s.backpressure ≡ true → low_water < s.pending_bytes
  flying : Flying s.is_closed s.is_writing s.write_queue s.flight

raise-Pressed :
    (c bp : Bool) (pending : ℕ)
    → (bp ≡ true → low_water < pending)
    → Pressed c (if not bp && ltb high_water pending then true else bp) pending
raise-Pressed c true pending h = record { above_low = λ e p. h refl; below_high = λ e p. cc }
raise-Pressed c false pending h =
    if_cases (λ b. Pressed c b pending) (ltb high_water pending) true false
      (λ e. record { above_low = λ c p. ground arith; below_high = λ c p. cc })
      (λ e. record { above_low = λ c p. cc; below_high = λ c p. ground arith })

entered-Counted :
    (c : Bool) (pending : ℕ) (q : List WriteData) (it : WriteData)
    → pending ≡ total q + it.total_bytes
    → pending ≤ hard_cap
    → Counted c pending (q ++ it ∷ [])
entered-Counted c pending q it sum cap = record {
  queued = omega (arith, total-append q it);
  exact = λ e. omega (arith, total-append q it);
  capped = λ e. cap;
  bounded = omega arith;
}

enqueue-Inv : (item : WriteData) (s : TcpSession) → Entering item s → Inv (enqueue item s)
unfolding enqueue
enqueue-Inv item s v =
    if_cases Inv (not s.is_writing) _ _
      (λ e. drain-Inv _ (record {
        counted = counted;
        pressed = pressed;
        landed = not-Flying s.is_closed s.write_queue s.flight (
            subst (λ w. Flying s.is_closed w s.write_queue s.flight) (off s.is_writing e) v.flying);
        busy = refl;
      }))
      (λ e. record {
        counted = counted;
        pressed = pressed;
        flying =
            Flying-append s.is_closed s.is_writing s.write_queue item s.flight (on s.is_writing e)
              v.flying;
      })
  where
    off : (w : Bool) → not w ≡ true → w ≡ false
    off w h = ground arith

    on : (w : Bool) → not w ≡ false → w ≡ true
    on w h = ground arith

    counted : Counted s.is_closed s.pending_bytes (s.write_queue ++ item ∷ [])
    counted = entered-Counted s.is_closed s.pending_bytes s.write_queue item v.sum v.under_cap

    pressed :
        Pressed s.is_closed
          (if not s.backpressure && ltb high_water s.pending_bytes then true else s.backpressure)
          s.pending_bytes
    pressed = raise-Pressed s.is_closed s.backpressure s.pending_bytes v.above_low

-- An item that is over the cap is counted, but the session is closed then.
over_cap-Inv :
    (s : TcpSession) (n : ℕ)
    → Inv s
    → s.is_closed ≡ false
    → n ≤ max_body_size + header_size
    → Inv (shutdown (record s { pending_bytes = add_size s.pending_bytes n }))
unfolding shutdown
over_cap-Inv s n v is_open small =
    if_cases Inv s.is_closed _ _ (λ e. cc)
      (λ e. record {
        counted = record {
          queued = omega (arith, v.counted.queued, v.counted.capped is_open);
          exact = λ c. cc;
          capped = λ c. cc;
          bounded = omega (arith, v.counted.capped is_open);
        };
        pressed = Pressed-closed s.backpressure (add_size s.pending_bytes n);
        flying = Flying-closed s.is_closed s.is_writing s.write_queue s.flight v.flying;
      })

-- An item within both limits enters the queue.
admitted-Entering :
    (item : WriteData) (s : TcpSession)
    → Inv s
    → s.is_closed ≡ false
    → item.total_bytes ≤ max_body_size + header_size
    → add_size s.pending_bytes item.total_bytes ≤ hard_cap
    → Entering item (record s { pending_bytes = add_size s.pending_bytes item.total_bytes })
admitted-Entering item s v is_open small cap = record {
  is_open = is_open;
  sum = omega (arith, v.counted.exact is_open, v.counted.capped is_open);
  under_cap = cap;
  above_low = λ p. omega (arith, v.pressed.above_low is_open p, v.counted.capped is_open);
  flying = v.flying;
}

admit-Inv :
    (n : ℕ) (item : WriteData) (s : TcpSession)
    → Inv s
    → s.is_closed ≡ false
    → (n ≤ max_body_size → item.total_bytes ≤ max_body_size + header_size)
    → Inv (admit n item s)
unfolding admit
admit-Inv n item s v is_open size =
    if_cases Inv (ltb max_body_size n || ltb (size_t_values - 1 - s.pending_bytes) item.total_bytes)
      _ _ (λ e. shutdown-Inv s v)
      λ e.
        let small = size (fits n item.total_bytes e) in
        if_cases Inv (ltb hard_cap (add_size s.pending_bytes item.total_bytes)) _ _
          (λ over. over_cap-Inv s item.total_bytes v is_open small)
          (λ under.
            enqueue-Inv item _ (admitted-Entering item s v is_open small (ltb→le _ _ under)))
  where
    fits :
        (n t : ℕ)
        → (ltb max_body_size n || ltb (size_t_values - 1 - s.pending_bytes) t) ≡ false
        → n ≤ max_body_size
    fits n t e = ground arith

module _ (e : BigEndian) where
  pub make_item-total :
      (type : TcpServiceType) (body : Option (List ℕ)) (version : ℕ)
      → size_of_body body ≤ max_body_size
      → (make_item e type body version).total_bytes ≡ header_size + size_of_body body
  unfolding make_item
  make_item-total type body version h = omega arith

  -- The function that `SendFrame` posts keeps the invariant.
  pub run_frame-Inv :
      (type : TcpServiceType) (body : Option (List ℕ)) (version : ℕ) (s : TcpSession)
      → Inv s
      → Inv (run_frame e type body version s)
  unfolding run_frame
  run_frame-Inv type body version s v =
      if_cases Inv s.is_closed _ _ (λ c. v)
        (λ is_open.
          admit-Inv (size_of_body body) (make_item e type body version) s v is_open
            (λ h. omega (arith, make_item-total type body version h)))
