-- ===== src/Session/Accepting.antt =====
-- Which frames are accepted for sure.
use zem.Base.{
  ℕ, ◌+◌, ◌-◌, ◌≤◌, ◌≡◌, refl, sym, ap, ◌∙◌, subst, false, not, ◌&&◌, ◌||◌, Option, List, [], ◌∷◌,
  ◌++◌, arith, ltb, if_cases, true, if◌then◌else◌,
}
use zem.Protocol.{BigEndian, TcpServiceType, header_size}
use zem.Session.State.{
  WriteData, TcpSession, max_body_size, hard_cap, high_water, size_t_values, add_size,
}
use zem.Session.Send.{size_of_body, make_item, admit, enqueue, run_frame}
use zem.Session.Write.{drain, is_empty}
use zem.Session.Batch.{frame_bytes, body_bytes}
use zem.Session.Frames.{wire_frame, frame_bytes-make_item}
use zem.Session.Admission.{make_item-total}
use zem.Session.Stream.{outgoing, outgoing-enqueue}

-- With room for it, an item is counted and put into the queue.
admit_enqueues :
    (n : ℕ) (it : WriteData) (s : TcpSession)
    → n ≤ max_body_size
    → s.pending_bytes + it.total_bytes ≤ hard_cap
    → admit n it s ≡ enqueue it (record s { pending_bytes = s.pending_bytes + it.total_bytes })
unfolding admit
admit_enqueues n it s small room =
    let to : TcpSession =
      enqueue it (record s { pending_bytes = s.pending_bytes + it.total_bytes }) in
    if_cases (λ t. t ≡ to)
      (ltb max_body_size n || ltb (size_t_values - 1 - s.pending_bytes) it.total_bytes) _ _
      (λ e. absurd (not_refused e))
      (λ e.
        if_cases (λ t. t ≡ to) (ltb hard_cap _) _ _ (λ h. absurd (not_over h))
          (λ h. ap (λ p. enqueue it (record s { pending_bytes = p })) counted))
  where
    counted : add_size s.pending_bytes it.total_bytes ≡ s.pending_bytes + it.total_bytes
    counted = omega arith

    not_refused :
        (ltb max_body_size n || ltb (size_t_values - 1 - s.pending_bytes) it.total_bytes) ≡ true → ⊥
    not_refused e = ground arith

    not_over : ltb hard_cap (add_size s.pending_bytes it.total_bytes) ≡ true → ⊥
    not_over h = ground arith

-- What a write that is put into the queue leaves alone.
record Same (s t : TcpSession) : Type 0 where
  still_open : t.is_closed ≡ s.is_closed
  tasks : t.tasks ≡ s.tasks
  pending : t.pending_bytes ≡ s.pending_bytes

drain-Same : (s : TcpSession) → Same s (drain s)
unfolding drain
drain-Same s =
    if_cases (Same s) (s.is_closed || is_empty s.write_queue) _ _
      (λ e. record { still_open = refl; tasks = refl; pending = refl })
      (λ e. record { still_open = refl; tasks = refl; pending = refl })

enqueue-Same : (it : WriteData) (s : TcpSession) → Same s (enqueue it s)
unfolding enqueue
enqueue-Same it s =
    let queued : TcpSession = record s {
      backpressure =
          if not s.backpressure && ltb high_water s.pending_bytes then true else s.backpressure;
      write_queue = s.write_queue ++ it ∷ [];
    } in
    if_cases (Same s) (not s.is_writing) _ _
      (λ e.
        let v = drain-Same (record queued { is_writing = true }) in
        record { still_open = v.still_open; tasks = v.tasks; pending = v.pending })
      (λ e. record { still_open = refl; tasks = refl; pending = refl })

pub enqueue-is_closed : (it : WriteData) (s : TcpSession) → (enqueue it s).is_closed ≡ s.is_closed
enqueue-is_closed it s = (enqueue-Same it s).still_open

-- An open session has put a frame behind everything that goes out.
pub record Accepts (e : BigEndian) (type : TcpServiceType) (body : Option (List ℕ)) (version : ℕ)
    (s t : TcpSession) : Type 0 where
  pub goes_out : outgoing t ≡ outgoing s ++ frame_bytes (make_item e type body version)
  pub still_open : t.is_closed ≡ false
  pub tasks : t.tasks ≡ s.tasks
  pub pending : t.pending_bytes ≡ s.pending_bytes + (header_size + size_of_body body)

module _ (e : BigEndian) where
  pub run_frame-Accepts :
      (type : TcpServiceType) (body : Option (List ℕ)) (version : ℕ) (s : TcpSession)
      → s.is_closed ≡ false
      → size_of_body body ≤ max_body_size
      → s.pending_bytes + (header_size + size_of_body body) ≤ hard_cap
      → Accepts e type body version s (run_frame e type body version s)
  unfolding run_frame
  run_frame-Accepts type body version s is_open small room =
      let it = make_item e type body version in
      let size = make_item-total e type body version small in
      let counted : TcpSession = record s { pending_bytes = s.pending_bytes + it.total_bytes } in
      let v = enqueue-Same it counted in
      let fits : s.pending_bytes + it.total_bytes ≤ hard_cap = omega (arith, room, size) in
      let run : (if s.is_closed then s else admit (size_of_body body) it s) ≡ enqueue it counted =
        ap (λ b. if b then s else admit (size_of_body body) it s) is_open
        ∙ admit_enqueues (size_of_body body) it s small fits in
      subst (Accepts e type body version s) (sym run) (record {
        goes_out = outgoing-enqueue it counted;
        still_open = v.still_open ∙ is_open;
        tasks = v.tasks;
        pending = v.pending ∙ ap (λ n. s.pending_bytes + n) size;
      })

  -- An open session accepts a frame whose body has at most 2 MB and for which there is room below the cap
  -- of 8 MB: the session stays open, and the frame, as the protocol lays it out, comes behind
  -- everything that goes out.
  pub run_frame-accepts :
      (type : TcpServiceType) (body : Option (List ℕ)) (version : ℕ) (s : TcpSession)
      → s.is_closed ≡ false
      → size_of_body body ≤ max_body_size
      → s.pending_bytes + (header_size + size_of_body body) ≤ hard_cap
      → let t = run_frame e type body version s in
        (t.is_closed ≡ false)
        × (outgoing t ≡ outgoing s ++ wire_frame e type (body_bytes body) version)
  run_frame-accepts type body version s is_open small room =
      let a = run_frame-Accepts type body version s is_open small room in
      (
        a.still_open,
        a.goes_out ∙ ap (λ f. outgoing s ++ f) (frame_bytes-make_item e type body version small),
      )
