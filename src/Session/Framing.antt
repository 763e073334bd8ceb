-- ===== src/Session/Framing.antt =====
-- What one end of a connection sends, the other end reads.
use zem.Base.{
  ℕ, ◌≤◌, ◌≡◌, refl, sym, ap, ◌∙◌, ◌⊎◌, inl, inr, false, ◌||◌, ◌==◌, ltb, none, some, List, ◌++◌,
  if◌then◌else◌, ◌%◌, ◌^◌, arith, length, take, drop, take-append, drop-append, subst,
}
use zem.ByteCodec.Detail.{modulus}
use zem.Protocol.{
  BigEndian, TcpServiceType, TcpHeaderConv, login, receiving, to_code, to_service_type, header_size,
  header_bytes,
}
use zem.Protocol.ApiVersion.{v1, is_supported_for}
use zem.Protocol.Header.{Fits, length-header_bytes, header_of_bytes-header_bytes}
use zem.Session.State.{TcpSession, at_body, handling, max_body_size}
use zem.Session.Send.{size_of_body, make_item}
use zem.Session.Read.{on_header, on_fields, by_type, on_request, on_body, give_up}
use zem.Session.Batch.{frame_bytes, body_bytes}

-- A request within the limits passes the checks.
on_request-at_body :
    (t : TcpServiceType) (version n : ℕ) (s : TcpSession)
    → 1 ≤ n
    → n ≤ max_body_size
    → on_request t version n s ≡ record s { reading = at_body t version n }
unfolding on_request
on_request-at_body t version n s some_body small =
    ap (λ b. if b then give_up s else record s { reading = at_body t version n }) fits
  where
    fits : ((n == 0) || ltb max_body_size n) ≡ false
    fits = ground arith

-- What `on_fields` leaves of such a request.
abbrev Asks : TcpServiceType → ℕ → TcpSession → Type 0
Asks t n s = on_fields t v1 n s ≡ record s { peer_api_version = v1; reading = at_body t v1 n }

on_fields-login : (n : ℕ) (s : TcpSession) → 1 ≤ n → n ≤ max_body_size → Asks login n s
unfolding on_fields by_type is_supported_for to_code
on_fields-login n s = on_request-at_body login v1 n (record s { peer_api_version = v1 })

on_fields-receiving : (n : ℕ) (s : TcpSession) → 1 ≤ n → n ≤ max_body_size → Asks receiving n s
unfolding on_fields by_type is_supported_for to_code
on_fields-receiving n s = on_request-at_body receiving v1 n (record s { peer_api_version = v1 })

on_fields-at_body :
    (t : TcpServiceType) (n : ℕ) (s : TcpSession)
    → ((t ≡ login) ⊎ (t ≡ receiving))
    → 1 ≤ n
    → n ≤ max_body_size
    → Asks t n s
on_fields-at_body t n s served some_body small = elim served [
  | inl e ↦ subst (λ x. Asks x n s) (sym e) (on_fields-login n s some_body small)
  | inr e ↦ subst (λ x. Asks x n s) (sym e) (on_fields-receiving n s some_body small)
]

small_code :
    (t : TcpServiceType)
    → ((t ≡ login) ⊎ (t ≡ receiving))
    → to_service_type (to_code t % 2 ^ 32) ≡ t
unfolding to_service_type to_code
small_code t served = elim served [
  | inl e ↦ subst (λ x. to_service_type (to_code x % 2 ^ 32) ≡ x) (sym e) refl
  | inr e ↦ subst (λ x. to_service_type (to_code x % 2 ^ 32) ≡ x) (sym e) refl
]

-- The header's fields, with the casts to their types.
abbrev pub cast_header : TcpServiceType → ℕ → ℕ → TcpHeaderConv
cast_header t size version = record {
  service_type = to_code t % 2 ^ 32;
  data_size = size % 2 ^ 32;
  api_version = version % 2 ^ 16;
}

cast_header-Fits : (t : TcpServiceType) (size version : ℕ) → Fits (cast_header t size version)
unfolding modulus
cast_header-Fits t size version = record {
  service_type = omega arith;
  data_size = omega arith;
  api_version = omega arith;
}

module _ (e : BigEndian) (t : TcpServiceType) (body : List ℕ) (version : ℕ) where
  -- The frame as its reader cuts it.
  abbrev pub frame_of : List ℕ
  frame_of = frame_bytes (make_item e t (some body) version)

  abbrev pub header_of : List ℕ
  header_of = header_bytes e (cast_header t (length body) version)

  pub frame_of-append : 1 ≤ length body → frame_of ≡ header_of ++ body
  unfolding make_item size_of_body
  frame_of-append some_body =
      ap (λ b. header_of ++ body_bytes (if b then none else some body)) not_empty
    where
      not_empty : (length body == 0) ≡ false
      not_empty = ground arith

  take-frame_of : 1 ≤ length body → take header_size frame_of ≡ header_of
  take-frame_of some_body =
      ap (take header_size) (frame_of-append some_body)
      ∙ ap (λ n. take n (header_of ++ body))
          (sym (length-header_bytes e (cast_header t (length body) version)))
      ∙ take-append header_of body

  pub drop-frame_of : 1 ≤ length body → drop header_size frame_of ≡ body
  drop-frame_of some_body =
      ap (drop header_size) (frame_of-append some_body)
      ∙ ap (λ n. drop n (header_of ++ body))
          (sym (length-header_bytes e (cast_header t (length body) version)))
      ∙ drop-append header_of body

-- The fields of a header are read as they were cast.
pub on_header-header_bytes :
    (e : BigEndian) (t : TcpServiceType) (n now : ℕ) (s : TcpSession)
    → on_header e (some (header_bytes e (cast_header t n v1))) now s
      ≡ on_fields
          (to_service_type (to_code t % 2 ^ 32))
          v1
          (n % 2 ^ 32)
          (record s { last_rx = now })
unfolding on_header
on_header-header_bytes e t n now s =
    ap
      (λ h.
        on_fields (to_service_type h.service_type) h.api_version h.data_size
          (record s { last_rx = now }))
      (header_of_bytes-header_bytes e _ (cast_header-Fits t n v1))

-- What `ReadLoop` has when it is about to call the handler.
abbrev pub receives : TcpServiceType → List ℕ → ℕ → TcpSession → TcpSession
receives t body now s = record s {
  peer_api_version = v1;
  last_rx = now;
  reading = handling t v1 body;
}

module _ (e : BigEndian) (t : TcpServiceType) (body : List ℕ)
    (served : (t ≡ login) ⊎ (t ≡ receiving)) (some_body : 1 ≤ length body)
    (small : length body ≤ max_body_size) where
  pub header_read :
      (now : ℕ) (s : TcpSession)
      → on_header e (some (header_of e t body v1)) now s
        ≡ record s { last_rx = now; peer_api_version = v1; reading = at_body t v1 (length body) }
  header_read now s =
      let size : length body % 2 ^ 32 ≡ length body = omega arith in
      on_header-header_bytes e t (length body) now s
      ∙ ap (λ n. on_fields (to_service_type (to_code t % 2 ^ 32)) v1 n (record s { last_rx = now }))
          size
      ∙ ap (λ x. on_fields x v1 (length body) (record s { last_rx = now })) (small_code t served)
      ∙ on_fields-at_body t (length body) (record s { last_rx = now }) served some_body small

  -- A frame of type `Login` or `Receiving` and of version 1, whose body has between 1 byte and 2 MB, is
  -- read as it was sent: after its first ten bytes the session waits for as many bytes as are left
  -- of the frame, and after these it calls the handler of the frame's type, with version 1 and
  -- exactly the frame's body.
  pub on_body-make_item :
      (now later : ℕ) (s : TcpSession)
      → let f = frame_bytes (make_item e t (some body) v1) in
        ((on_header e (some (take header_size f)) now s).reading
          ≡ at_body t v1 (length (drop header_size f)))
        × (on_body t v1
              (some (drop header_size f))
              later
              (on_header e (some (take header_size f)) now s)
            ≡ receives t body later s)
  unfolding on_body
  on_body-make_item now later s =
      let f = frame_of e t body v1 in
      let rest = drop-frame_of e t body v1 some_body in
      let read : on_header e (some (take header_size f)) now s ≡ record s {
        last_rx = now;
        peer_api_version = v1;
        reading = at_body t v1 (length body);
      } =
        ap (λ x. on_header e (some x) now s) (take-frame_of e t body v1 some_body)
        ∙ header_read now s in
      (
        ap (λ (x : TcpSession). x.reading) read ∙ ap (λ b. at_body t v1 (length b)) (sym rest),
        ap (λ b. on_body t v1 (some b) later (on_header e (some (take header_size f)) now s)) rest
            ∙ ap (on_body t v1 (some body) later) read,
      )
