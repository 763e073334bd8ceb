-- ===== src/Session/Queue.antt =====
-- The functions of the write queue leave alone what belongs to the coroutines: they move the queue's fields,
-- wake the read loop and shut the session down. What these keep, all of them keep.
use zem.Base.{
  ℕ, ◌-◌, ◌≡◌, refl, ◌⊎◌, inl, inr, Bool, true, false, not, ◌&&◌, ◌||◌, Option, none, some, List,
  [], ◌∷◌, ◌++◌, leb, ltb, drop, if◌then◌else◌, if_cases,
}
use mathlib.Core.List.{flatten}
use zem.Protocol.{BigEndian, TcpServiceType}
use zem.Session.State.{
  WriteData, Batch, Reading, TcpSession, woken, hard_cap, max_body_size, low_water, high_water,
  size_t_values, sub_size, add_size,
}
use zem.Session.Write.{is_empty, gather, empty_batch, drain, relieve, completed, failed}
use zem.Session.Send.{size_of_body, make_item, enqueue, admit, run_frame}
use zem.Session.Keeps.{EndsOf}

abbrev pub QueueMovesOf : (TcpSession → Type 0) → Type 0
QueueMovesOf P =
    (s : TcpSession) (is_writing : Bool) (queue : List WriteData) (pending : ℕ) (pressed : Bool)
    (flight : Option Batch) (sent torn : List ℕ) (reading : Reading)
    → (reading ≡ s.reading) ⊎ (reading ≡ woken s.reading)
    → P s
    → P (record s {
      is_writing = is_writing;
      write_queue = queue;
      pending_bytes = pending;
      backpressure = pressed;
      flight = flight;
      sent = sent;
      torn = torn;
      reading = reading;
    })

module _ (P : TcpSession → Type 0) (closes : EndsOf P) (moves : QueueMovesOf P) where
  pub drain-keeps : (s : TcpSession) → P s → P (drain s)
  unfolding drain
  drain-keeps s v =
      if_cases P (s.is_closed || is_empty s.write_queue) _ _
        (λ e.
          moves s false s.write_queue s.pending_bytes s.backpressure s.flight s.sent s.torn
            s.reading (inl refl) v)
        (λ e.
          moves s s.is_writing s.write_queue s.pending_bytes s.backpressure
            (some (gather empty_batch s.write_queue)) s.sent s.torn s.reading (inl refl) v)

  relieve-keeps : (s : TcpSession) → P s → P (relieve s)
  unfolding relieve
  relieve-keeps s v =
      if_cases P (s.backpressure && leb s.pending_bytes low_water) _ _
        (λ e.
          moves s s.is_writing s.write_queue s.pending_bytes false s.flight s.sent s.torn
            (woken s.reading) (inr refl) v)
        (λ e. v)

  pub completed-keeps : (b : Batch) (s : TcpSession) → P s → P (completed b s)
  unfolding completed
  completed-keeps b s v = drain-keeps _ (
      relieve-keeps _ (
        moves s s.is_writing (drop b.items s.write_queue) (sub_size s.pending_bytes b.bytes)
          s.backpressure none (s.sent ++ flatten b.bufs) s.torn s.reading (inl refl) v))

  pub failed-keeps : (n : ℕ) (s : TcpSession) → P s → P (failed n s)
  unfolding failed
  failed-keeps n s v = closes.shuts _ (
      moves s false s.write_queue s.pending_bytes s.backpressure none s.sent _ s.reading (inl refl)
        v)

  enqueue-keeps : (it : WriteData) (s : TcpSession) → P s → P (enqueue it s)
  unfolding enqueue
  enqueue-keeps it s v =
      let pressed =
        if not s.backpressure && ltb high_water s.pending_bytes then true else s.backpressure in
      if_cases P (not s.is_writing) _ _
        (λ e. drain-keeps _ (
          moves s true (s.write_queue ++ it ∷ []) s.pending_bytes pressed s.flight s.sent s.torn
            s.reading (inl refl) v))
        (λ e.
          moves s s.is_writing (s.write_queue ++ it ∷ []) s.pending_bytes pressed s.flight s.sent
            s.torn s.reading (inl refl) v)

  admit-keeps : (size : ℕ) (it : WriteData) (s : TcpSession) → P s → P (admit size it s)
  unfolding admit
  admit-keeps size it s v =
      let counted : TcpSession = record s {
        pending_bytes = add_size s.pending_bytes it.total_bytes;
      } in
      let w : P counted =
        moves s s.is_writing s.write_queue (add_size s.pending_bytes it.total_bytes) s.backpressure
          s.flight s.sent s.torn s.reading (inl refl) v in
      if_cases P
        (ltb max_body_size size || ltb (size_t_values - 1 - s.pending_bytes) it.total_bytes) _ _
        (λ e. closes.shuts s v)
        (λ e.
          if_cases P (ltb hard_cap counted.pending_bytes) _ _ (λ h. closes.shuts counted w)
            (λ h. enqueue-keeps it counted w))

  pub run_frame-keeps :
      (e : BigEndian) (type : TcpServiceType) (body : Option (List ℕ)) (version : ℕ)
      (s : TcpSession)
      → P s
      → P (run_frame e type body version s)
  unfolding run_frame
  run_frame-keeps e type body version s v =
      if_cases P s.is_closed _ _ (λ h. v)
        (λ h. admit-keeps (size_of_body body) (make_item e type body version) s v)
