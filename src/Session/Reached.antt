-- ===== src/Session/Reached.antt =====
-- Every step of a session is made of a few functions, so that what these keep, every reached state has.
use zem.Base.{refl, ap, sym, ◌∙◌, ◌∷◌, ℕ, ◌≡◌, Option, none, some, List}
use zem.Protocol.{BigEndian, TcpServiceType}
use zem.Session.Goes.{stays, cleanups}
use zem.Session.State.{TcpSession, frame, cleanup, at_body, Task, Batch, start_handling, clean_up}
use zem.Session.Write.{completed, failed}
use zem.Session.Send.{run_frame}
use zem.Session.Read.{Handler}
use zem.Session.Steps.{
  Step, Reach, begin, next, Later, here, after, runs_frame, runs_cleanup, writes, fails_to_write,
  starts_reading, resumes, reads_header, fails_to_read_header, reads_body, fails_to_read_body,
  handles, starts_beating, wakes, wakes_from_grace, closes, sends, read_crashes, beat_crashes,
  with_tasks,
}
use zem.Session.Invariant.{Inv, Inv-start, shutdown-Inv, completed-Inv, failed-Inv}
use zem.Session.Admission.{run_frame-Inv}
use zem.Session.Beats.{beat-keeps, expire-keeps, on_interval-keeps, on_grace-keeps}
use zem.Session.Keeps.{
  ReadsOf, reads_of, MovesOf, ClosesOf, closes_of, send_frame-keeps, give_up-keeps, read_next-keeps,
  resume-keeps, on_header-keeps, on_body-keeps, on_body-keeps_error, on_handled-keeps,
}

-- `P` is kept by the write queue's own functions too.
pub record WritesOf (e : BigEndian) (P : TcpSession → Type 0) : Type 0 where
  pub framed :
      (type : TcpServiceType) (body : Option (List ℕ)) (version : ℕ) (s : TcpSession)
      → P s
      → P (run_frame e type body version s)
  pub cleaned :
      (s : TcpSession) (rest : List Task)
      → s.tasks ≡ cleanup ∷ rest
      → P s
      → P (clean_up (with_tasks s rest))
  pub written : (b : Batch) (s : TcpSession) → s.flight ≡ some b → P s → P (completed b s)
  pub unwritten : (n : ℕ) (s : TcpSession) → P s → P (failed n s)

module _ (P : TcpSession → Type 0) (c : ClosesOf P) (m : MovesOf P) (e : BigEndian)
    (k : WritesOf e P) {World : Type 0} (handlers : List (Handler World)) where
  frame_taken :
      (s : TcpSession) (type : TcpServiceType) (body : Option (List ℕ)) (version : ℕ)
      (rest : List Task)
      → s.tasks ≡ frame type body version ∷ rest
      → P s
      → P (with_tasks s rest)
  frame_taken s type body version rest h =
      m s rest s.reading s.beating s.last_rx s.peer_api_version s.hb_expiry
        (stays s rest (ap cleanups (sym h)))

  reads : ReadsOf P
  reads = reads_of P m

  heard : (now : ℕ) (s : TcpSession) → P s → P (record s { last_rx = now })
  heard now s =
      m s s.tasks s.reading s.beating now s.peer_api_version s.hb_expiry (stays s s.tasks refl)

  pub Step-keeps : {s t : TcpSession} → Step e handlers s t → P s → P t
  Step-keeps {s} (runs_frame type body version rest h) v =
      k.framed type body version (with_tasks s rest) (frame_taken s type body version rest h v)
  Step-keeps {s} (runs_cleanup rest h) v = k.cleaned s rest h v
  Step-keeps {s} (writes b h) v = k.written b s h v
  Step-keeps {s} (fails_to_write b n h) v = k.unwritten n s v
  Step-keeps {s} (starts_reading h) v = read_next-keeps P c.ends reads s v
  Step-keeps {s} (resumes h) v = resume-keeps P c.ends reads s v
  Step-keeps {s} (reads_header bytes now h len) v =
      on_header-keeps P c.ends reads e (some bytes) now s v (heard now s v)
  Step-keeps {s} (fails_to_read_header now h) v =
      on_header-keeps P c.ends reads e none now s v (heard now s v)
  Step-keeps {s} (reads_body type version size bytes now h len) v =
      on_body-keeps P c.ends reads type version bytes now s
        (h ∙ ap (at_body type version) (sym len)) (heard now s v)
  Step-keeps {s} (fails_to_read_body type version size now h) v =
      on_body-keeps_error P c.ends reads type version now s v
  Step-keeps {s} (handles type version body handler w h found) v =
      on_handled-keeps P c.ends reads (handler version body w) s v
  Step-keeps {s} (starts_beating now jitter h j) v = beat-keeps P c m now jitter s v
  Step-keeps {s} (wakes aborted now jitter h j) v = on_interval-keeps P c m aborted now jitter s v
  Step-keeps {s} (wakes_from_grace aborted now jitter h j) v =
      on_grace-keeps P c m aborted now jitter s v
  Step-keeps {s} closes v = c.ends.shuts s v
  Step-keeps {s} (sends type body version) v = send_frame-keeps P c.ends reads type body version s v
  Step-keeps {s} (read_crashes h) v = give_up-keeps P c.ends reads s v
  Step-keeps {s} beat_crashes v = expire-keeps P c m s v

  pub Later-keeps : {s t : TcpSession} → Later e handlers s t → P s → P t
  Later-keeps here v = v
  Later-keeps (after l st) v = Step-keeps st (Later-keeps l v)

  pub Reach-keeps :
      ((now : ℕ) → P (start_handling now)) → {s : TcpSession} → Reach e handlers s → P s
  Reach-keeps started (begin now) = started now
  Reach-keeps started (next r st) = Step-keeps st (Reach-keeps started r)

pub Inv-moves : MovesOf Inv
Inv-moves s tasks reading beating last_rx version expiry waits v = v

Inv-cleaned :
    (s : TcpSession) (rest : List Task)
    → s.tasks ≡ cleanup ∷ rest
    → Inv s
    → Inv (clean_up (with_tasks s rest))
unfolding clean_up
Inv-cleaned s rest h v = v

Inv-writes : (e : BigEndian) → WritesOf e Inv
Inv-writes e = record {
  framed = run_frame-Inv e;
  cleaned = Inv-cleaned;
  written = λ b s h v. completed-Inv s b v h;
  unwritten = failed-Inv;
}

module _ (e : BigEndian) {World : Type 0} (handlers : List (Handler World)) where
  -- In every state that a session comes to, as long as it is open, `m_pending_bytes` is exactly the bytes
  -- of the write queue and at most 8 MB, a write is under way whenever something is queued, and
  -- `m_backpressure` is only set above 512 KB and only clear up to 1 MB. Open or not, at least the
  -- bytes of the queue and at most 10 MB and ten bytes are pending, `m_is_writing` says whether a
  -- write is under way, and that holds the front of the queue, in at most 32 buffers.
  pub Reach-Inv : {s : TcpSession} → Reach e handlers s → Inv s
  Reach-Inv =
      Reach-keeps Inv (closes_of Inv shutdown-Inv (λ s v. v) (λ s v. v)) Inv-moves e (Inv-writes e)
        handlers Inv-start
