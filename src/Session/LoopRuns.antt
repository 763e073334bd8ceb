-- ===== src/Session/LoopRuns.antt =====
-- Tests of Session/Loop.antt, and its theorems at concrete inputs.
use zem.Base.{
  ℕ, ◌+◌, ◌≡◌, ◌==◌, refl, sym, subst, inl, inr, true, some, none, List, [], ◌∷◌, replicate, arith,
  length, ◌≤◌, ◌++◌, All,
}
use zem.Protocol.{TcpServiceType, login, receiving, pong, send, to_code}
use zem.Protocol.Runs.{digits}
use zem.Protocol.ApiVersion.{v1}
use zem.Session.State.{TcpSession, start_handling, at_header, hard_cap}
use zem.Session.Read.{Handler, handler_of, read_next}
use zem.Session.Loop.{Connection, serve}
use zem.Session.Rounds.{Rested, serve-Rested}
use zem.Session.Conversation.{
  Message, pings, pongs, requests, conversation_bytes, Served, converse, placed,
}
use zem.Session.Wire.{IsFrame, frames_size, frames_bytes, served, Replied, serve-Replied}
use zem.Session.Stream.{outgoing}
use zem.Session.Steps.{Reach, begin, next, starts_reading}
use zem.Session.Send.{size_of_body}
use zem.Session.Answered.{at_input}
use zem.Session.Chunks.{feed, serve_all, serve-feed}
use zem.Session.Conversed.{Answered, serve-Answered}

-- Handlers that count the requests, send each body back, and throw at a body of one byte.
abbrev echo : Handler ℕ
echo version body n = record {
  calls = send receiving (some body) version ∷ [];
  threw = length body == 1;
  world = n + 1;
}

abbrev handlers : List (Handler ℕ)
handlers = replicate 4 echo

abbrev at_once : ℕ → ℕ
at_once n = 100

abbrev messages : List Message
messages = pings ∷ requests login (1 ∷ 2 ∷ []) ∷ pongs ∷ requests receiving (9 ∷ []) ∷ pings ∷ []

table : (t : TcpServiceType) → Served t → handler_of handlers t ≡ some echo
unfolding handler_of to_code
table t served = elim served [
  | inl e ↦ subst (λ x. handler_of handlers x ≡ some echo) (sym e) refl
  | inr e ↦ subst (λ x. handler_of handlers x ≡ some echo) (sym e) refl
]

-- The last ping is not read.
answers_in_order : converse (λ t. echo) messages 0 ≡ record {
  calls =
      send pong none v1
      ∷ send receiving (some (1 ∷ 2 ∷ [])) v1
      ∷ send receiving (some (9 ∷ [])) v1
      ∷ [];
  threw = true;
  world = 2;
}
unfolding converse
answers_in_order = refl

abbrev begun : Connection ℕ
begun = record { input = conversation_bytes digits messages; world = 0; session = start_handling 0 }

serve-Rested_example :
    Rested digits handlers at_once begun
      (serve digits handlers at_once (length begun.input + 3) begun)
serve-Rested_example = serve-Rested digits handlers at_once begun

serve-Answered_example :
    let input = conversation_bytes digits messages in
    Answered (converse (λ t. echo) messages 0) (start_handling 0) (
      serve digits handlers at_once
        (length input + 3)
        (at_input input 0 (placed 5 at_header (start_handling 0))))
unfolding start_handling
serve-Answered_example =
    serve-Answered digits handlers at_once (λ t. echo) table messages 0 5 (start_handling 0)
      (
        tt,
        (
          (inl refl, omega arith, omega arith),
          (tt, ((inr refl, omega arith, omega arith), (tt, tt))),
        ),
      )
      refl

-- The rest of a frame, after its first bytes have been read.
serve-feed_example :
    serve_all digits handlers 100 (feed (4 ∷ 5 ∷ []) (serve_all digits handlers 100 begun))
    ≡ serve_all digits handlers 100 (feed (4 ∷ 5 ∷ []) begun)
serve-feed_example = serve-feed digits handlers 100 (4 ∷ 5 ∷ []) begun

-- A new session, and messages to which no handler throws.
abbrev calm : List Message
calm = pings ∷ requests login (1 ∷ 2 ∷ []) ∷ pongs ∷ []

abbrev new : TcpSession
new = start_handling 5

new-Reach : Reach digits handlers (placed 5 at_header new)
unfolding start_handling read_next
new-Reach = next (begin 5) (starts_reading refl)

calm-sends : All IsFrame (converse (λ t. echo) calm 0).calls
unfolding converse size_of_body
calm-sends = omega arith

calm-room : new.pending_bytes + frames_size (converse (λ t. echo) calm 0).calls ≤ hard_cap
unfolding converse size_of_body start_handling
calm-room = omega arith

serve-Replied_example :
    let o = converse (λ t. echo) calm 0 in
    let c = served digits handlers at_once (λ t. echo) table calm 0 5 new in
    (c.input ≡ [])
    × (c.world ≡ o.world)
    × Replied digits c.session (outgoing new ++ frames_bytes digits o.calls)
unfolding start_handling converse
serve-Replied_example =
    serve-Replied digits handlers at_once (λ t. echo) table calm 0 5 new new-Reach
      (tt, ((inl refl, omega arith, omega arith), (tt, tt))) refl refl refl refl calm-sends
      calm-room
