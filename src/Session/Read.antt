-- ===== src/Session/Read.antt =====
-- `ReadLoop`, cut at its waits: each function runs from the end of one wait to the next one.
use zem.Base.{
  ℕ, Bool, not, ◌||◌, Option, none, some, List, leb, ltb, ◌==◌, if◌then◌else◌, get_elem?,
}
use zem.Protocol.{
  BigEndian, TcpServiceType, ping, pong, type_cnt, to_service_type, to_code, header_of_bytes, Call,
}
use zem.Protocol.ApiVersion.{is_supported_for}
use zem.Session.State.{
  TcpSession, resuming, at_header, ended, at_body, handling, max_body_size, shutdown,
}
use zem.Session.Send.{send_pong, perform_all}

-- `TCPSession::Handler`. The connection that it is given is the session, its calls of that are listed
-- in order, and `threw` says that it ended in an exception after them.
pub record Outcome (World : Type 0) : Type 0 where
  pub calls : List Call
  pub threw : Bool
  pub world : World

abbrev pub Handler : Type 0 → Type 0
Handler World = ℕ → List ℕ → World → Outcome World

-- A read that failed or a request that is refused: `Shutdown(); co_return;`.
unfoldable pub give_up : TcpSession → TcpSession
give_up s = shutdown (record s { reading = ended })

-- The top of the loop.
unfoldable pub read_next : TcpSession → TcpSession
read_next s = record s { reading = if s.backpressure then resuming else at_header }

-- After a wait on `m_resume_read`, whatever ended it.
unfoldable pub resume : TcpSession → TcpSession
resume s = record s { reading = at_header }

unfoldable pub on_ping : ℕ → TcpSession → TcpSession
on_ping data_size s = if not (data_size == 0) then give_up s else read_next (send_pong s)

unfoldable pub on_pong : ℕ → TcpSession → TcpSession
on_pong data_size s = if not (data_size == 0) then give_up s else read_next s

unfoldable pub on_request : TcpServiceType → ℕ → ℕ → TcpSession → TcpSession
on_request service_type api_version data_size s =
    if (data_size == 0) || ltb max_body_size data_size
    then give_up s
    else record s { reading = at_body service_type api_version data_size }

unfoldable pub by_type : TcpServiceType → ℕ → ℕ → TcpSession → TcpSession
by_type ping api_version data_size s = on_ping data_size s
by_type pong api_version data_size s = on_pong data_size s
by_type other api_version data_size s = on_request other api_version data_size s

-- The checks of a header whose fields have been read.
unfoldable pub on_fields : TcpServiceType → ℕ → ℕ → TcpSession → TcpSession
on_fields service_type api_version data_size s =
    if leb (to_code type_cnt) (to_code service_type)
      || not (is_supported_for service_type api_version)
    then give_up s
    else by_type service_type api_version data_size (record s { peer_api_version = api_version })

-- The read of a header has ended at `now`, with an error or with ten bytes.
unfoldable pub on_header : BigEndian → Option (List ℕ) → ℕ → TcpSession → TcpSession
on_header e none now s = give_up s
on_header e (some bytes) now s =
    let h = header_of_bytes e bytes in
    on_fields (to_service_type h.service_type) h.api_version h.data_size
      (record s { last_rx = now })

-- The read of a body has ended at `now`, with an error or with as many bytes as were asked for.
unfoldable pub on_body : TcpServiceType → ℕ → Option (List ℕ) → ℕ → TcpSession → TcpSession
on_body service_type api_version none now s = give_up s
on_body service_type api_version (some data_buf) now s = record s {
  last_rx = now;
  reading = handling service_type api_version data_buf;
}

module _ {World : Type 0} where
  -- What the handler did, and the rest of the round.
  unfoldable pub on_handled : Outcome World → TcpSession → TcpSession
  on_handled o s =
      let after = perform_all o.calls s in if o.threw then give_up after else read_next after

  -- `m_handlers[service_type]`; an index out of range is ruled out elsewhere.
  unfoldable pub handler_of : List (Handler World) → TcpServiceType → Option (Handler World)
  handler_of handlers service_type = get_elem? handlers (to_code service_type)
