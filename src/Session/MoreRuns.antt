-- ===== src/Session/MoreRuns.antt =====
-- Sessions that end, that write out what is queued, and that read what another end sends.
use zem.Base.{
  ℕ, ◌≤◌, ◌≡◌, ◌++◌, List, some, refl, true, length, false, ◌+◌, ◌∷◌, [], inl, take, drop, arith,
}
use zem.Protocol.{login, header_size}
use zem.Protocol.ApiVersion.{v1}
use zem.Protocol.Runs.{digits}
use zem.Session.State.{
  TcpSession, Batch, hard_cap, max_body_size, at_body, start_handling, shutdown,
}
use zem.Session.Write.{drain, failed, is_empty}
use zem.Session.Send.{make_item, run_frame, size_of_body, admit, enqueue}
use zem.Session.Steps.{Reach, next, here, after, closes, sends, fails_to_write}
use zem.Session.Stream.{outgoing}
use zem.Session.Alive.{Alive, Reach-Alive}
use zem.Session.Closing.{Once, Reach-Once, closed-final}
use zem.Session.Handled.{Proper, Reach-Proper}
use zem.Session.Flush.{Flushes, Written, flush-Written}
use zem.Session.Send.{send_frame}
use zem.Session.Given.{given}
use zem.Session.Batch.{frame_bytes, body_bytes}
use zem.Session.Frames.{wire_frame}
use zem.Session.Accepting.{run_frame-accepts}
use zem.Session.Read.{on_header, on_body}
use zem.Session.Framing.{receives, on_body-make_item}
use zem.Session.Torn.{Reach-taken}
use zem.Session.Runs.{fresh, body, no_handlers, writing, writing-Reach}
use zem.Session.StuckRuns.{idle_handlers, in_handler, in_handler-Reach}

abbrev closing : TcpSession
closing = shutdown writing

closing-Reach : Reach digits no_handlers closing
closing-Reach = next writing-Reach closes

Reach-Once_example : Once closing
Reach-Once_example = Reach-Once digits no_handlers closing-Reach

closing-is_closed : closing.is_closed ≡ true
unfolding shutdown run_frame send_frame start_handling admit size_of_body make_item enqueue drain
closing-is_closed = refl

closed-final_example :
    ((send_frame login body 1 closing).is_closed ≡ true)
    × (outgoing (send_frame login body 1 closing) ≡ outgoing closing)
closed-final_example =
    closed-final digits no_handlers closing-Reach closing-is_closed
      (after here (sends login body 1))

Reach-Proper_example : Proper in_handler.reading
Reach-Proper_example = Reach-Proper digits idle_handlers in_handler-Reach

Reach-Alive_example : Alive writing
Reach-Alive_example = Reach-Alive digits no_handlers writing-Reach

writing-is_open : writing.is_closed ≡ false
unfolding run_frame send_frame start_handling admit size_of_body make_item enqueue drain
writing-is_open = refl

flush-Written_example :
    (k : ℕ) × (t : TcpSession) × Flushes writing k t
    × (k ≤ length writing.write_queue)
    × Written (outgoing writing) t
flush-Written_example = flush-Written digits no_handlers writing-Reach writing-is_open

fresh-is_open : fresh.is_closed ≡ false
unfolding start_handling
fresh-is_open = refl

fresh-room : fresh.pending_bytes + (header_size + size_of_body body) ≤ hard_cap
unfolding start_handling size_of_body
fresh-room = omega arith

body-small : size_of_body body ≤ max_body_size
unfolding size_of_body
body-small = omega arith

run_frame-accepts_example :
    let t = run_frame digits login body 1 fresh in
    (t.is_closed ≡ false)
    × (outgoing t ≡ outgoing fresh ++ wire_frame digits login (body_bytes body) 1)
run_frame-accepts_example =
    run_frame-accepts digits login body 1 fresh fresh-is_open body-small fresh-room

on_body-make_item_example :
    let f = frame_bytes (make_item digits login (some (7 ∷ [])) v1) in
    ((on_header digits (some (take header_size f)) 1 fresh).reading
      ≡ at_body login v1 (length (drop header_size f)))
    × (on_body login v1
          (some (drop header_size f))
          2
          (on_header digits (some (take header_size f)) 1 fresh)
        ≡ receives login (7 ∷ []) 2 fresh)
on_body-make_item_example =
    on_body-make_item digits login (7 ∷ []) (inl refl) (omega arith) (omega arith) 1 2 fresh

-- The write fails after three bytes.
abbrev broken : TcpSession
broken = failed 3 writing

writing-flight : (b : Batch) × (writing.flight ≡ some b)
unfolding run_frame send_frame start_handling admit size_of_body make_item enqueue drain is_empty
writing-flight = (_, refl)

broken-Reach : Reach digits no_handlers broken
broken-Reach = next writing-Reach (fails_to_write writing-flight.0 3 writing-flight.1)

Reach-taken_example :
    (rest : List ℕ) × (given digits no_handlers broken-Reach ≡ broken.sent ++ (broken.torn ++ rest))
Reach-taken_example = Reach-taken digits no_handlers broken-Reach
