-- ===== src/Session/Send.antt =====
-- `SendFrame` and the functions that call it.
use zem.Base.{
  ℕ, ◌-◌, ◌%◌, ◌^◌, true, not, ◌&&◌, ◌||◌, Option, none, some, List, [], ◌∷◌, ◌++◌, ltb, ◌==◌,
  if◌then◌else◌, length,
}
use zem.Protocol.{
  BigEndian, TcpServiceType, ping, pong, to_code, header_bytes, header_size, Call, send, close,
}
use zem.Session.State.{
  WriteData, frame, TcpSession, max_body_size, hard_cap, high_water, size_t_values, add_size, post,
  shutdown,
}
use zem.Session.Write.{drain}

unfoldable pub send_frame : TcpServiceType → Option (List ℕ) → ℕ → TcpSession → TcpSession
send_frame type body api_version s = post (frame type body api_version) s

unfoldable pub send_ping : TcpSession → TcpSession
send_ping s = send_frame ping none s.peer_api_version s

unfoldable pub send_pong : TcpSession → TcpSession
send_pong s = send_frame pong none s.peer_api_version s

-- What a handler asks of its connection: `Send` and `Close`.
unfoldable pub perform : Call → TcpSession → TcpSession
perform (send type body api_version) s = send_frame type body api_version s
perform close s = shutdown s

unfoldable pub perform_all : List Call → TcpSession → TcpSession
perform_all [] s = s
perform_all (c ∷ cs) s = perform_all cs (perform c s)

unfoldable pub size_of_body : Option (List ℕ) → ℕ
size_of_body none = 0
size_of_body (some b) = length b

-- The function that `SendFrame` posts, in parts. First the item, with casts to the header's types.
module _ (e : BigEndian) where
  unfoldable pub make_item : TcpServiceType → Option (List ℕ) → ℕ → WriteData
  unfolding size_of_body
  make_item type body api_version = record {
    header = header_bytes e (record {
      service_type = to_code type % 2 ^ 32;
      data_size = size_of_body body % 2 ^ 32;
      api_version = api_version % 2 ^ 16;
    });
    body = if size_of_body body == 0 then none else body;
    total_bytes = add_size header_size (size_of_body body);
  }

-- The item goes to the queue, and to the socket if no write is under way.
unfoldable pub enqueue : WriteData → TcpSession → TcpSession
enqueue item s =
    let queued = record s {
      backpressure =
          if not s.backpressure && ltb high_water s.pending_bytes then true else s.backpressure;
      write_queue = s.write_queue ++ item ∷ [];
    } in
    if not s.is_writing then drain (record queued { is_writing = true }) else queued

-- The two limits.
unfoldable pub admit : ℕ → WriteData → TcpSession → TcpSession
admit body_size item s =
    let counted = record s { pending_bytes = add_size s.pending_bytes item.total_bytes } in
    if ltb max_body_size body_size || ltb (size_t_values - 1 - s.pending_bytes) item.total_bytes
    then shutdown s
    else if ltb hard_cap counted.pending_bytes
    then shutdown counted
    else enqueue item counted

module _ (e : BigEndian) where
  unfoldable pub run_frame : TcpServiceType → Option (List ℕ) → ℕ → TcpSession → TcpSession
  run_frame type body api_version s =
      if s.is_closed then s else admit (size_of_body body) (make_item e type body api_version) s
