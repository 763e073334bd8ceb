-- ===== src/Session/Steps.antt =====
-- What can happen to a session: every interleaving on its strand is a sequence of these steps. The
-- client, the network, the timers, the clock and the handlers' world choose among them. A read or a
-- write can end in an error at any time, a write after any part of its bytes; a write that has
-- succeeded can be reported late, and a wait on the heartbeat's timer can be aborted at any time.
use zem.Base.{ℕ, ◌≤◌, ◌≡◌, ◌≢◌, Bool, Option, none, some, List, ◌∷◌, length}
use zem.Protocol.{BigEndian, TcpServiceType, header_size}
use zem.Session.State.{
  TcpSession, Task, frame, cleanup, Batch, starting, resuming, resumed, at_header, at_body,
  handling, unstarted, sleeping, in_grace, max_jitter, start_handling, shutdown, clean_up,
}
use zem.Session.Write.{completed, failed}
use zem.Session.Send.{run_frame, send_frame}
use zem.Session.Read.{
  Handler, read_next, resume, on_header, on_body, on_handled, handler_of, give_up,
}
use zem.Session.Heartbeat.{beat, on_interval, on_grace, expire}

abbrev pub with_tasks : TcpSession → List Task → TcpSession
with_tasks s ts = record s { tasks = ts }

module _ (e : BigEndian) {World : Type 0} (handlers : List (Handler World)) where
  -- `Step s t`: one function runs on the strand of `s` to its end, and leaves `t`.
  pub data Step (s : TcpSession) : TcpSession → Type 0 where
    -- the strand runs what was posted first
    runs_frame :
        (type : TcpServiceType) (body : Option (List ℕ)) (version : ℕ) (rest : List Task)
        → s.tasks ≡ frame type body version ∷ rest
        → Step s (run_frame e type body version (with_tasks s rest))
    runs_cleanup :
        (rest : List Task) → s.tasks ≡ cleanup ∷ rest → Step s (clean_up (with_tasks s rest))
    -- the write under way ends
    writes : (b : Batch) → s.flight ≡ some b → Step s (completed b s)
    -- ended after its first `n` bytes
    fails_to_write : (b : Batch) (n : ℕ) → s.flight ≡ some b → Step s (failed n s)
    -- the read loop goes on
    starts_reading : s.reading ≡ starting → Step s (read_next s)
    resumes : s.reading ≡ resumed → Step s (resume s)
    reads_header :
        (bytes : List ℕ) (now : ℕ)
        → s.reading ≡ at_header
        → length bytes ≡ header_size
        → Step s (on_header e (some bytes) now s)
    fails_to_read_header : (now : ℕ) → s.reading ≡ at_header → Step s (on_header e none now s)
    reads_body :
        (type : TcpServiceType) (version size : ℕ) (bytes : List ℕ) (now : ℕ)
        → s.reading ≡ at_body type version size
        → length bytes ≡ size
        → Step s (on_body type version (some bytes) now s)
    fails_to_read_body :
        (type : TcpServiceType) (version size now : ℕ)
        → s.reading ≡ at_body type version size
        → Step s (on_body type version none now s)
    handles :
        (type : TcpServiceType) (version : ℕ) (body : List ℕ) (h : Handler World) (w : World)
        → s.reading ≡ handling type version body
        → handler_of handlers type ≡ some h
        → Step s (on_handled (h version body w) s)
    -- the heartbeat goes on
    starts_beating :
        (now jitter : ℕ) → s.beating ≡ unstarted → jitter ≤ max_jitter → Step s (beat now jitter s)
    wakes :
        (aborted : Bool) (now jitter : ℕ)
        → s.beating ≡ sleeping
        → jitter ≤ max_jitter
        → Step s (on_interval aborted now jitter s)
    wakes_from_grace :
        (aborted : Bool) (now jitter : ℕ)
        → s.beating ≡ in_grace
        → jitter ≤ max_jitter
        → Step s (on_grace aborted now jitter s)
    -- the server, or anyone else, closes or sends
    closes : Step s (shutdown s)
    sends :
        (type : TcpServiceType) (body : Option (List ℕ)) (version : ℕ)
        → Step s (send_frame type body version s)
    -- an exception leaves a coroutine that runs
    read_crashes : s.reading ≢ resuming → Step s (give_up s)
    beat_crashes : Step s (expire s)

  -- The states that a session comes to.
  pub data Reach : TcpSession → Type 0 where
    begin : (now : ℕ) → Reach (start_handling now)
    next : {s t : TcpSession} → Reach s → Step s t → Reach t

  -- `Later s t`: steps lead from `s` to `t`.
  pub data Later (s : TcpSession) : TcpSession → Type 0 where
    here : Later s s
    after : {t u : TcpSession} → Later s t → Step t u → Later s u
