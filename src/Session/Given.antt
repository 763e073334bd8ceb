-- ===== src/Session/Given.antt =====
-- Everything that goes out on the socket, by the frames that the strand has run.
use zem.Base.{
  ℕ, ◌-◌, ◌≤◌, ◌≡◌, refl, sym, ap, ◌∙◌, Bool, true, false, ◌||◌, Option, none, some, List, [], ◌++◌,
  ltb, if◌then◌else◌, if_cases, arith,
}
use zem.Protocol.{BigEndian, TcpServiceType}
use zem.Session.State.{
  WriteData, TcpSession, Task, Batch, at_body, start_handling, shutdown, clean_up, hard_cap,
  max_body_size, size_t_values, add_size,
}
use zem.Session.Write.{completed, failed}
use zem.Session.Send.{size_of_body, make_item, admit, run_frame}
use zem.Session.Read.{Handler}
use zem.Session.Steps.{
  Step, Reach, begin, next, runs_frame, runs_cleanup, writes, fails_to_write, starts_reading,
  resumes, reads_header, fails_to_read_header, reads_body, fails_to_read_body, handles,
  starts_beating, wakes, wakes_from_grace, closes, sends, read_crashes, beat_crashes, with_tasks,
}
use zem.Session.Goes.{shutdown-is_closed}
use zem.Session.Batch.{body_bytes, frame_bytes}
use zem.Session.Frames.{wire_frame, frame_bytes-make_item}
use zem.Session.Invariant.{Inv, Inv-start, shutdown-Inv, completed-Inv, failed-Inv}
use zem.Session.Admission.{run_frame-Inv}
use zem.Session.Accepting.{enqueue-is_closed}
use zem.Session.Keeps.{
  ReadsOf, reads_of, MovesOf, ClosesOf, EndsOf, closes_of, send_frame-keeps, give_up-keeps,
  read_next-keeps, resume-keeps, on_header-keeps, on_body-keeps, on_body-keeps_error,
  on_handled-keeps,
}
use zem.Session.Beats.{beat-keeps, expire-keeps, on_interval-keeps, on_grace-keeps}
use zem.Session.Stream.{
  outgoing, outgoing-Quiet, shutdown-Quiet, outgoing-completed, outgoing-enqueue, Flying-some,
}

-- `out`, and then the frame, unless the session is closed.
abbrev unless_closed : Bool → List ℕ → List ℕ → List ℕ
unless_closed closed out f = if closed then out else out ++ f

-- What a function that may put `f` on the queue of `s` makes of its output.
abbrev Grows : TcpSession → List ℕ → TcpSession → Type 0
Grows s f t = outgoing t ≡ unless_closed t.is_closed (outgoing s) f

Grows-closed :
    (s : TcpSession) (f : List ℕ) (t : TcpSession)
    → t.is_closed ≡ true
    → outgoing t ≡ outgoing s
    → Grows s f t
Grows-closed s f t c h = h ∙ ap (λ b. unless_closed b (outgoing s) f) (sym c)

Grows-shutdown :
    (s : TcpSession) (f : List ℕ) (t : TcpSession)
    → outgoing t ≡ outgoing s
    → Grows s f (shutdown t)
Grows-shutdown s f t h =
    Grows-closed s f (shutdown t) (shutdown-is_closed t) (outgoing-Quiet (shutdown-Quiet t) ∙ h)

admit-Grows :
    (size : ℕ) (it : WriteData) (f : List ℕ) (s : TcpSession)
    → (size ≤ max_body_size → frame_bytes it ≡ f)
    → s.is_closed ≡ false
    → Grows s f (admit size it s)
unfolding admit
admit-Grows size it f s same is_open =
    let counted : TcpSession = record s {
      pending_bytes = add_size s.pending_bytes it.total_bytes;
    } in
    if_cases (Grows s f)
      (ltb max_body_size size || ltb (size_t_values - 1 - s.pending_bytes) it.total_bytes) _ _
      (λ e. Grows-shutdown s f s refl)
      (λ e.
        if_cases (Grows s f) (ltb hard_cap counted.pending_bytes) _ _
          (λ h. Grows-shutdown s f counted refl)
          (λ h.
            let small : size ≤ max_body_size = ground arith in
            outgoing-enqueue it counted
            ∙ ap (λ x. outgoing s ++ x) (same small)
            ∙ ap (λ b. unless_closed b (outgoing s) f)
                (sym (enqueue-is_closed it counted ∙ is_open))))

run_frame-Grows :
    (e : BigEndian) (type : TcpServiceType) (body : Option (List ℕ)) (version : ℕ) (s : TcpSession)
    → Grows s (wire_frame e type (body_bytes body) version) (run_frame e type body version s)
unfolding run_frame
run_frame-Grows e type body version s =
    let f = wire_frame e type (body_bytes body) version in
    if_cases (Grows s f) s.is_closed _ _ (λ c. Grows-closed s f s c refl)
      (λ o.
        admit-Grows (size_of_body body) (make_item e type body version) f s
          (frame_bytes-make_item e type body version) o)

-- The queue's invariant, and what goes out.
record Out (out : List ℕ) (s : TcpSession) : Type 0 where
  queue : Inv s
  output : outgoing s ≡ out

module _ (out : List ℕ) where
  Out-shuts : (s : TcpSession) → Out out s → Out out (shutdown s)
  Out-shuts s v = record {
    queue = shutdown-Inv s v.queue;
    output = outgoing-Quiet (shutdown-Quiet s) ∙ v.output;
  }

  Out-closes : ClosesOf (Out out)
  Out-closes =
      closes_of (Out out) Out-shuts (λ s v. record { queue = v.queue; output = v.output })
        (λ s v. record { queue = v.queue; output = v.output })

  Out-moves : MovesOf (Out out)
  Out-moves s tasks reading beating last_rx version expiry goes v = record {
    queue = v.queue;
    output = v.output;
  }

  Out-completed :
      (e : BigEndian) (b : Batch) (s : TcpSession)
      → s.flight ≡ some b
      → Out out s
      → Out out (completed b s)
  Out-completed e b s h v = record {
    queue = completed-Inv s b v.queue h;
    output =
        outgoing-completed s b
          (Flying-some e s.is_closed s.is_writing s.write_queue s.flight b h v.queue.flying)
        ∙ v.output;
  }

  Out-failed : (n : ℕ) (s : TcpSession) → Out out s → Out out (failed n s)
  unfolding failed
  Out-failed n s v = record {
    queue = failed-Inv n s v.queue;
    output = outgoing-Quiet (shutdown-Quiet _) ∙ v.output;
  }

  Out-cleaned :
      (s : TcpSession) (rest : List Task) → Out out s → Out out (clean_up (with_tasks s rest))
  unfolding clean_up
  Out-cleaned s rest v = record { queue = v.queue; output = v.output }

module _ (out : List ℕ) where
  ends : EndsOf (Out out)
  ends = (Out-closes out).ends

  reads : ReadsOf (Out out)
  reads = reads_of (Out out) (Out-moves out)

  heard : (now : ℕ) (s : TcpSession) → Out out s → Out out (record s { last_rx = now })
  heard now s v = record { queue = v.queue; output = v.output }

module _ (e : BigEndian) {World : Type 0} (handlers : List (Handler World)) where
  -- What goes out after a step, if `out` went out before: a frame that the strand has run comes behind
  -- it, unless the session is closed by then, and every other step leaves it.
  unfoldable pub grown : {s t : TcpSession} → Step e handlers s t → List ℕ → List ℕ
  grown {s} (runs_frame type body version rest h) out =
      if (run_frame e type body version (with_tasks s rest)).is_closed
      then out
      else out ++ wire_frame e type (body_bytes body) version
  grown other out = out

  -- The frames that the strand has run and the session accepted, from its start.
  unfoldable pub given : {s : TcpSession} → Reach e handlers s → List ℕ
  unfolding grown
  given (begin now) = []
  given (next r st) = grown st (given r)

  Step-Out :
      {s t : TcpSession} (st : Step e handlers s t) (out : List ℕ)
      → Out out s
      → Out (grown st out) t
  unfolding grown
  Step-Out {s} (runs_frame type body version rest h) out v = record {
    queue = run_frame-Inv e type body version (with_tasks s rest) v.queue;
    output =
        run_frame-Grows e type body version (with_tasks s rest)
        ∙ ap
            (λ o.
              unless_closed (run_frame e type body version (with_tasks s rest)).is_closed o
                (wire_frame e type (body_bytes body) version))
            v.output;
  }
  Step-Out {s} (runs_cleanup rest h) out v = Out-cleaned out s rest v
  Step-Out {s} (writes b h) out v = Out-completed out e b s h v
  Step-Out {s} (fails_to_write b n h) out v = Out-failed out n s v
  Step-Out {s} (starts_reading h) out v = read_next-keeps (Out out) (ends out) (reads out) s v
  Step-Out {s} (resumes h) out v = resume-keeps (Out out) (ends out) (reads out) s v
  Step-Out {s} (reads_header bytes now h len) out v =
      on_header-keeps (Out out) (ends out) (reads out) e (some bytes) now s v (heard out now s v)
  Step-Out {s} (fails_to_read_header now h) out v =
      on_header-keeps (Out out) (ends out) (reads out) e none now s v (heard out now s v)
  Step-Out {s} (reads_body type version size bytes now h len) out v =
      on_body-keeps (Out out) (ends out) (reads out) type version bytes now s
        (h ∙ ap (at_body type version) (sym len)) (heard out now s v)
  Step-Out {s} (fails_to_read_body type version size now h) out v =
      on_body-keeps_error (Out out) (ends out) (reads out) type version now s v
  Step-Out {s} (handles type version body handler w h found) out v =
      on_handled-keeps (Out out) (ends out) (reads out) (handler version body w) s v
  Step-Out {s} (starts_beating now jitter h j) out v =
      beat-keeps (Out out) (Out-closes out) (Out-moves out) now jitter s v
  Step-Out {s} (wakes aborted now jitter h j) out v =
      on_interval-keeps (Out out) (Out-closes out) (Out-moves out) aborted now jitter s v
  Step-Out {s} (wakes_from_grace aborted now jitter h j) out v =
      on_grace-keeps (Out out) (Out-closes out) (Out-moves out) aborted now jitter s v
  Step-Out {s} closes out v = Out-shuts out s v
  Step-Out {s} (sends type body version) out v =
      send_frame-keeps (Out out) (ends out) (reads out) type body version s v
  Step-Out {s} (read_crashes h) out v = give_up-keeps (Out out) (ends out) (reads out) s v
  Step-Out {s} beat_crashes out v = expire-keeps (Out out) (Out-closes out) (Out-moves out) s v

  Reach-Out : {s : TcpSession} (r : Reach e handlers s) → Out (given r) s
  unfolding given start_handling
  Reach-Out (begin now) = record { queue = Inv-start now; output = refl }
  Reach-Out (next r st) = Step-Out st (given r) (Reach-Out r)

  -- In every state that a session comes to, the bytes of the writes that ended well and those that
  -- are still queued are together exactly the frames that the strand has run and the session
  -- accepted, which it did when it was still open after that: each once, in the order in which the
  -- strand ran them, and each with its type's code, the length of its body, its version cast to
  -- sixteen bits, and its body.
  pub Reach-given : {s : TcpSession} (r : Reach e handlers s) → outgoing s ≡ given r
  Reach-given r = (Reach-Out r).output
