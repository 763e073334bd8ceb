-- ===== src/Session/Wire.antt =====
-- A conversation on the wire: from the bytes of a client to the bytes that its session has sent back.
use zem.Base.{
  ℕ, ◌+◌, ◌≤◌, ◌≡◌, refl, sym, ap, subst, ◌∙◌, false, some, List, [], ◌∷◌, ◌++◌, append-nil,
  append_assoc, arith, length, All,
}
use zem.Protocol.{BigEndian, TcpServiceType, Call, send, close, header_size}
use zem.Session.State.{
  TcpSession, Task, frame, cleanup, clean_up, at_header, max_body_size, hard_cap,
}
use zem.Session.Send.{send_frame, perform, perform_all, size_of_body, make_item, run_frame}
use zem.Session.Read.{Outcome, Handler, handler_of, on_handled}
use zem.Session.Steps.{Step, Reach, next, Later, here, after, runs_frame, with_tasks}
use zem.Session.Batch.{frame_bytes, body_bytes}
use zem.Session.Frames.{wire_frame, frame_bytes-make_item}
use zem.Session.Stream.{outgoing}
use zem.Session.Flush.{Flushes, Written, flush-Written}
use zem.Session.Accepting.{run_frame-Accepts}
use zem.Session.Placed.{perform_all-backpressure}
use zem.Session.Conversation.{Message, conversation_bytes, Served, IsSendable, converse, placed}
use zem.Session.Loop.{Connection, serve}
use zem.Session.Rounds.{serve-Rested}
use zem.Session.Answered.{at_input}
use zem.Session.Conversed.{heard, heard-read_next, serve-Answered}

-- A call that sends a frame which the limits allow.
abbrev pub IsFrame : Call → Type 0
IsFrame (send t body v) = size_of_body body ≤ max_body_size
IsFrame close = ⊥

-- What the calls post, how many bytes their frames have, and which.
abbrev pub frames : List Call → List Task
frames [] = []
frames (send t body v ∷ cs) = frame t body v ∷ frames cs
frames (close ∷ cs) = frames cs

abbrev pub frames_size : List Call → ℕ
frames_size [] = 0
frames_size (send t body v ∷ cs) = header_size + size_of_body body + frames_size cs
frames_size (close ∷ cs) = frames_size cs

abbrev pub frames_bytes : BigEndian → List Call → List ℕ
frames_bytes e [] = []
frames_bytes e (send t body v ∷ cs) = wire_frame e t (body_bytes body) v ++ frames_bytes e cs
frames_bytes e (close ∷ cs) = frames_bytes e cs

perform_all-frames :
    (cs : List Call) (s : TcpSession)
    → All IsFrame cs
    → perform_all cs s ≡ with_tasks s (s.tasks ++ frames cs)
unfolding perform_all perform send_frame
perform_all-frames [] s ok = ap (with_tasks s) (sym (append-nil s.tasks))
perform_all-frames (send t body v ∷ cs) s ok =
    perform_all-frames cs (with_tasks s (s.tasks ++ frame t body v ∷ [])) ok.1
    ∙ ap (with_tasks s) (append_assoc s.tasks (frame t body v ∷ []) (frames cs))
perform_all-frames (close ∷ cs) s ok = absurd ok.0

-- The strand runs posted functions, one after another: each takes itself from the front.
unfoldable pub run_posted : BigEndian → List Task → TcpSession → TcpSession
run_posted e [] s = s
run_posted e (frame type body version ∷ rest) s =
    run_posted e rest (run_frame e type body version (with_tasks s rest))
run_posted e (cleanup ∷ rest) s = run_posted e rest (clean_up (with_tasks s rest))

module _ (e : BigEndian) {World : Type 0} (handlers : List (Handler World)) where
  Reach-Later : {s t : TcpSession} → Reach e handlers s → Later e handlers s t → Reach e handlers t
  Reach-Later r here = r
  Reach-Later r (after l st) = next (Reach-Later r l) st

  before : {s t u : TcpSession} → Step e handlers s t → Later e handlers t u → Later e handlers s u
  before st here = after here st
  before st (after l st') = after (before st l) st'

  -- The strand has run those frames, and `out` goes out.
  record Runs (cs : List Call) (s : TcpSession) (out : List ℕ) : Type 0 where
    steps : Later e handlers s (run_posted e (frames cs) s)
    still_open : (run_posted e (frames cs) s).is_closed ≡ false
    none_posted : (run_posted e (frames cs) s).tasks ≡ []
    goes_out : outgoing (run_posted e (frames cs) s) ≡ out

  frames-Runs :
      (cs : List Call) (s : TcpSession)
      → All IsFrame cs
      → s.is_closed ≡ false
      → s.tasks ≡ frames cs
      → s.pending_bytes + frames_size cs ≤ hard_cap
      → Runs cs s (outgoing s ++ frames_bytes e cs)
  unfolding run_posted
  frames-Runs [] s ok is_open posted room = record {
    steps = here;
    still_open = is_open;
    none_posted = posted;
    goes_out = sym (append-nil (outgoing s));
  }
  frames-Runs (close ∷ cs) s ok is_open posted room = absurd ok.0
  frames-Runs (send t body v ∷ cs) s ok is_open posted room =
      let rest = with_tasks s (frames cs) in
      let a = run_frame-Accepts e t body v rest is_open ok.0 (omega arith) in
      let more =
        frames-Runs cs (run_frame e t body v rest) ok.1 a.still_open a.tasks
          (omega (arith, a.pending)) in
      record {
        steps = before (runs_frame t body v (frames cs) posted) more.steps;
        still_open = more.still_open;
        none_posted = more.none_posted;
        goes_out =
            more.goes_out
            ∙ ap (λ x. x ++ frames_bytes e cs) a.goes_out
            ∙ append_assoc (outgoing s) (frame_bytes (make_item e t body v)) (frames_bytes e cs)
            ∙ ap (λ f. outgoing s ++ (f ++ frames_bytes e cs))
                (frame_bytes-make_item e t body v ok.0);
      }

-- A handler's answer that does not throw and only sends leaves the session as it was, but for what is posted.
heard-on_handled :
    {World : Type 0} (o : Outcome World) (last : ℕ) (s : TcpSession)
    → s.backpressure ≡ false
    → o.threw ≡ false
    → All IsFrame o.calls
    → heard last (on_handled o s) ≡ placed last at_header (with_tasks s (s.tasks ++ frames o.calls))
unfolding on_handled
heard-on_handled o last s free calm ok = rw calm (
    sym (heard-read_next last (perform_all o.calls s) (perform_all-backpressure o.calls s ∙ free))
    ∙ ap (placed last at_header) (perform_all-frames o.calls s ok))

-- The strand runs what `s` has posted, and nothing else happens; that leaves nothing posted, and writes
-- that end well lead from there to a session that has sent `out`.
pub record Replied (e : BigEndian) (s : TcpSession) (out : List ℕ) : Type 0 where
  pub none_posted : (run_posted e s.tasks s).tasks ≡ []
  pub count : ℕ
  pub end : TcpSession
  pub flushes : Flushes (run_posted e s.tasks s) count end
  pub written : Written out end

module _ (e : BigEndian) {World : Type 0} (handlers : List (Handler World)) (clock : ℕ → ℕ)
    (handler : TcpServiceType → Handler World)
    (table : (t : TcpServiceType) → Served t → handler_of handlers t ≡ some (handler t))
    (ms : List Message) (w : World) (now : ℕ) (s : TcpSession) where
  -- The answers to the messages, the bytes of the messages, and the connection after them.
  abbrev pub answers : Outcome World
  answers = converse handler ms w

  abbrev pub input : List ℕ
  input = conversation_bytes e ms

  abbrev pub begun : Connection World
  begun = at_input input w (placed now at_header s)

  abbrev pub served : Connection World
  served = serve e handlers clock (length input + 3) begun

  -- A session that is reached waits for a header; it is open, without backpressure, and nothing is
  -- posted. Its client sends pings, pongs and requests of the served types, with bodies between 1
  -- byte and 2 MB, and the handlers that are found for these types do not throw and only send,
  -- bodies of at most 2 MB, and all their frames fit below the cap of 8 MB. Then the loop reads all
  -- bytes and gives the handlers' world that of the answers. When the strand then runs what the loop
  -- has posted, with nothing in between, and the writes end well one after the other, the socket has
  -- been given what was going out before, and then exactly the frames of the answers, in the order
  -- of the messages, each as the protocol lays it out; and nothing is queued or pending, and the
  -- loop does not wait for it.
  pub serve-Replied :
      Reach e handlers (placed now at_header s)
      → All IsSendable ms
      → s.is_closed ≡ false
      → s.backpressure ≡ false
      → s.tasks ≡ []
      → answers.threw ≡ false
      → All IsFrame answers.calls
      → s.pending_bytes + frames_size answers.calls ≤ hard_cap
      → (served.input ≡ [])
        × (served.world ≡ answers.world)
        × Replied e served.session (outgoing s ++ frames_bytes e answers.calls)
  serve-Replied reach ok is_open free none_posted calm sends room =
      let a = serve-Answered e handlers clock handler table ms w now s ok free in
      let posted = with_tasks s (frames answers.calls) in
      let same : served.session ≡ placed a.last at_header posted =
        a.session
        ∙ heard-on_handled answers a.last s free calm sends
        ∙ ap (λ ts. placed a.last at_header (with_tasks s (ts ++ frames answers.calls)))
            none_posted in
      let there = Reach-Later e handlers reach (serve-Rested e handlers clock begun).steps in
      let r =
        frames-Runs e handlers answers.calls (placed a.last at_header posted) sends is_open refl
          room in
      let arrived = Reach-Later e handlers (subst (Reach e handlers) same there) r.steps in
      let (k, t, flushes, le, written) = flush-Written e handlers arrived r.still_open in
      (
        a.input calm,
        a.world,
        subst (λ x. Replied e x (outgoing s ++ frames_bytes e answers.calls)) (sym same)
            (record {
              none_posted = r.none_posted;
              count = k;
              end = t;
              flushes = flushes;
              written = subst (λ out. Written out t) r.goes_out written;
            }),
      )
