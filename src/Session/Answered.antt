-- ===== src/Session/Answered.antt =====
-- How the loop of Session/Loop.antt reads one message and answers it.
use zem.Base.{
  ℕ, ◌≤◌, ◌≡◌, sym, ap, ap₂, ◌∙◌, true, some, List, [], ◌++◌, append-nil, append_assoc, arith, leb,
  length, take-append, drop-append, length-append,
}
use zem.Protocol.{BigEndian, TcpServiceType, ping, pong, header_bytes, to_code, to_service_type}
use zem.Protocol.ApiVersion.{v1, is_supported_for}
use zem.Protocol.Header.{length-header_bytes}
use zem.Session.State.{TcpSession, Reading, at_header, at_body, handling, max_body_size}
use zem.Session.Send.{perform, perform_all, send_frame, send_pong, make_item, size_of_body}
use zem.Session.Read.{
  Handler, handler_of, on_header, on_body, on_handled, on_fields, by_type, on_ping, on_pong,
}
use zem.Session.Framing.{cast_header, frame_of-append, header_read, on_header-header_bytes}
use zem.Session.Passes.{Passes, done, round}
use zem.Session.Loop.{Connection, receive, call, advance_at, advance}
use zem.Session.Conversation.{
  Message, pings, pongs, requests, message_bytes, Served, IsSendable, answer, placed,
}

module _ {World : Type 0} where
  -- A connection with the bytes `input` yet to be read.
  abbrev pub at_input : List ℕ → World → TcpSession → Connection World
  at_input input w s = record { input = input; world = w; session = s }

-- The header of a frame of version 1 with a body of `n` bytes.
abbrev framed : BigEndian → TcpServiceType → ℕ → List ℕ
framed e t n = header_bytes e (cast_header t n v1)

module _ (e : BigEndian) {World : Type 0} (handlers : List (Handler World)) (clock : ℕ → ℕ) where
  receive-append :
      (bytes rest : List ℕ) (ends : List ℕ → ℕ → TcpSession → TcpSession) (w : World)
      (s : TcpSession)
      → receive e handlers clock (length bytes) ends (at_input (bytes ++ rest) w s)
        ≡ some (at_input rest w (ends bytes (clock (length rest)) s))
  unfolding receive
  receive-append bytes rest ends w s =
      let enough : leb (length bytes) (length (bytes ++ rest)) ≡ true =
        ground (arith, length-append bytes rest) in
      rw enough (
        ap₂ (λ x y. some (at_input y w (ends x (clock (length y)) s))) (take-append bytes rest)
          (drop-append bytes rest))

  passes_one :
      {c f : Connection World} → advance e handlers clock c ≡ some f → Passes e handlers clock f c
  passes_one h = round h done

  -- Its header is read from the front.
  advance-header :
      (t : TcpServiceType) (n : ℕ) (rest : List ℕ) (w : World) (now : ℕ) (s : TcpSession)
      → advance e handlers clock (at_input (framed e t n ++ rest) w (placed now at_header s))
        ≡ some (
            at_input rest w
              (on_header e (some (framed e t n)) (clock (length rest)) (placed now at_header s)))
  unfolding advance_at
  advance-header t n rest w now s =
      let ends : List ℕ → ℕ → TcpSession → TcpSession = λ bytes at. on_header e (some bytes) at in
      ap
        (λ k.
          receive e handlers clock k ends
            (at_input (framed e t n ++ rest) w (placed now at_header s)))
        (sym (length-header_bytes e (cast_header t n v1)))
      ∙ receive-append (framed e t n) rest ends w (placed now at_header s)

module _ (e : BigEndian) {World : Type 0} (handlers : List (Handler World)) (clock : ℕ → ℕ)
    (handler : TcpServiceType → Handler World) where
  -- A message was read from the front of the input, and answered.
  pub record Exchange (m : Message) (w : World) (now : ℕ) (s : TcpSession) (rest : List ℕ)
      : Type 0 where
    pub later : ℕ
    pub place : Reading
    pub passes :
        Passes e handlers clock
          (at_input rest
            (answer handler m w).world
            (on_handled (answer handler m w) (placed later place s)))
          (at_input (message_bytes e m ++ rest) w (placed now at_header s))

  on_header-pings :
      (w : World) (now later : ℕ) (s : TcpSession)
      → on_header e (some (framed e ping 0)) later (placed now at_header s)
        ≡ on_handled (answer handler pings w) (placed later at_header s)
  unfolding on_fields is_supported_for by_type on_ping to_code to_service_type on_handled
      perform_all perform send_pong send_frame
  on_header-pings w now later s = on_header-header_bytes e ping 0 later (placed now at_header s)

  on_header-pongs :
      (w : World) (now later : ℕ) (s : TcpSession)
      → on_header e (some (framed e pong 0)) later (placed now at_header s)
        ≡ on_handled (answer handler pongs w) (placed later at_header s)
  unfolding on_fields is_supported_for by_type on_pong to_code to_service_type on_handled
      perform_all
  on_header-pongs w now later s = on_header-header_bytes e pong 0 later (placed now at_header s)

  module _ (w : World) (now : ℕ) (s : TcpSession) (rest : List ℕ) where
    control_passes :
        (t : TcpServiceType) {x : TcpSession}
        → on_header e (some (framed e t 0)) (clock (length rest)) (placed now at_header s) ≡ x
        → Passes e handlers clock
            (at_input rest w x)
            (at_input ((framed e t 0 ++ []) ++ rest) w (placed now at_header s))
    control_passes t h = passes_one e handlers clock (
        ap (λ x. advance e handlers clock (at_input (x ++ rest) w (placed now at_header s)))
          (append-nil (framed e t 0))
        ∙ advance-header e handlers clock t 0 rest w now s
        ∙ ap (λ x. some (at_input rest w x)) h)

    pings-Exchange : Exchange pings w now s rest
    unfolding make_item size_of_body
    pings-Exchange = record {
      later = clock (length rest);
      place = at_header;
      passes = control_passes ping (on_header-pings w now (clock (length rest)) s);
    }

    pongs-Exchange : Exchange pongs w now s rest
    unfolding make_item size_of_body
    pongs-Exchange = record {
      later = clock (length rest);
      place = at_header;
      passes = control_passes pong (on_header-pongs w now (clock (length rest)) s);
    }

    requests-Exchange :
        (t : TcpServiceType) (body : List ℕ)
        → handler_of handlers t ≡ some (handler t)
        → Served t
        → 1 ≤ length body
        → length body ≤ max_body_size
        → Exchange (requests t body) w now s rest
    unfolding advance_at call on_body
    requests-Exchange t body found served some_body small = record {
      later = clock (length rest);
      place = handling t v1 body;
      passes =
          let l = clock (length (body ++ rest)) in
          let asked : TcpSession = placed l (at_body t v1 (length body)) s in
          let given : TcpSession = placed (clock (length rest)) (handling t v1 body) s in
          round
            (ap (λ x. advance e handlers clock (at_input x w (placed now at_header s)))
                (ap (λ x. x ++ rest) (frame_of-append e t body v1 some_body)
                  ∙ append_assoc (framed e t (length body)) body rest)
              ∙ advance-header e handlers clock t (length body) (body ++ rest) w now s
              ∙ ap (λ x. some (at_input (body ++ rest) w x))
                  (header_read e t body served some_body small l (placed now at_header s)))
            (round {f = at_input rest w given}
              (receive-append e handlers clock body rest (λ bytes at. on_body t v1 (some bytes) at)
                w asked)
              (passes_one e handlers clock
                (ap (λ o. call e handlers clock o v1 body (at_input rest w given)) found)));
    }

  -- Every message that a client may send is read and answered.
  pub answers :
      ((t : TcpServiceType) → Served t → handler_of handlers t ≡ some (handler t))
      → (m : Message) → IsSendable m
      → (w : World) (now : ℕ) (s : TcpSession) (rest : List ℕ) → Exchange m w now s rest
  answers table pings ok w now s rest = pings-Exchange w now s rest
  answers table pongs ok w now s rest = pongs-Exchange w now s rest
  answers table (requests t body) ok w now s rest =
      requests-Exchange w now s rest t body (table t ok.0) ok.0 ok.1 ok.2
