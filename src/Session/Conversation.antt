-- ===== src/Session/Conversation.antt =====
-- What a client says to a session message by message, and what a session does that is given whole
-- messages, one after another.
use zem.Base.{ℕ, ◌≤◌, ◌≡◌, ◌⊎◌, Bool, true, false, none, some, List, [], ◌∷◌, ◌++◌, length}
use zem.Protocol.{BigEndian, TcpServiceType, ping, pong, login, receiving, send}
use zem.Protocol.ApiVersion.{v1}
use zem.Session.State.{TcpSession, Reading, max_body_size}
use zem.Session.Send.{make_item}
use zem.Session.Read.{Outcome, Handler}
use zem.Session.Batch.{frame_bytes}

pub data Message : Type 0 where
  pings pongs : Message
  requests : TcpServiceType → List ℕ → Message

module _ (e : BigEndian) where
  abbrev pub message_bytes : Message → List ℕ
  message_bytes pings = frame_bytes (make_item e ping none v1)
  message_bytes pongs = frame_bytes (make_item e pong none v1)
  message_bytes (requests t body) = frame_bytes (make_item e t (some body) v1)

  -- The messages on the wire.
  abbrev pub conversation_bytes : List Message → List ℕ
  conversation_bytes [] = []
  conversation_bytes (m ∷ ms) = message_bytes m ++ conversation_bytes ms

abbrev pub Served : TcpServiceType → Type 0
Served t = (t ≡ login) ⊎ (t ≡ receiving)

-- A request has a type that is served, and a body of up to 2 MB.
abbrev pub IsSendable : Message → Type 0
IsSendable pings = Unit
IsSendable pongs = Unit
IsSendable (requests t body) = Served t × (1 ≤ length body) × (length body ≤ max_body_size)

abbrev pub unless_thrown : {World : Type 0} → Bool → Outcome World → Outcome World → Outcome World
unless_thrown true o o' = o
unless_thrown false o o' = record {
  calls = o.calls ++ o'.calls;
  threw = o'.threw;
  world = o'.world;
}

module _ {World : Type 0} (handler : TcpServiceType → Handler World) where
  -- A ping is answered by a pong, a pong by nothing, and a request by its handler.
  abbrev pub answer : Message → World → Outcome World
  answer pings w = record { calls = send pong none v1 ∷ []; threw = false; world = w }
  answer pongs w = record { calls = []; threw = false; world = w }
  answer (requests t body) w = handler t v1 body w

  -- The answers in order, up to a handler that throws.
  unfoldable pub converse : List Message → World → Outcome World
  converse [] w = record { calls = []; threw = false; world = w }
  converse (m ∷ ms) w = let o = answer m w in unless_thrown o.threw o (converse ms o.world)

-- A session whose read loop is at `r`, after bytes at `now` from a client of version 1.
abbrev pub placed : ℕ → Reading → TcpSession → TcpSession
placed now r s = record s { last_rx = now; peer_api_version = v1; reading = r }
