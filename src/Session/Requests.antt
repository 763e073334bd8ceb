-- ===== src/Session/Requests.antt =====
-- Which headers make a session read a body.
use zem.Base.{
  ℕ, ◌≤◌, ◌≡◌, ◌≢◌, ◌∙◌, refl, sym, ◌⊎◌, inl, inr, Bool, true, false, not, ◌||◌, some, List, arith,
  leb, ltb, ◌==◌, if◌then◌else◌, if_cases,
}
use zem.Protocol.{
  BigEndian, TcpServiceType, ping, pong, login, receiving, type_cnt, unlisted, to_service_type,
  to_code, header_of_bytes,
}
use zem.Protocol.ApiVersion.{v1, is_supported_for}
use zem.Protocol.Versions.{is_supported_for_iff}
use zem.Session.State.{TcpSession, resuming, at_header, at_body, max_body_size, shutdown}
use zem.Session.Send.{send_pong}
use zem.Session.Read.{
  give_up, read_next, on_ping, on_pong, on_request, by_type, on_fields, on_header,
}

-- A request of version 1 that has a handler's type and a body of up to 2 MB.
pub record Request (t : TcpServiceType) (version size : ℕ) : Type 0 where
  pub served : (t ≡ login) ⊎ (t ≡ receiving)
  pub at_v1 : version ≡ v1
  pub some_body : 1 ≤ size
  pub small : size ≤ max_body_size

-- What `on_request` has tested when it reads a body.
pub request_of :
    (t : TcpServiceType) (version size : ℕ)
    → ((t ≡ login) ⊎ (t ≡ receiving))
    → version ≡ v1
    → ((size == 0) || ltb max_body_size size) ≡ false
    → Request t version size
request_of t version size k one e = record {
  served = k;
  at_v1 = one;
  some_body = ground arith;
  small = ground arith;
}

module _ (ty : TcpServiceType) (v n : ℕ) (P : Type 0) where
  -- If the session came to wait for that body, then `P`.
  abbrev OnBody : TcpSession → Type 0
  OnBody t = t.reading ≡ at_body ty v n → P

  give_up-OnBody : (s : TcpSession) → OnBody (give_up s)
  unfolding give_up shutdown
  give_up-OnBody s = if_cases OnBody s.is_closed _ _ (λ e h. cc) (λ e h. cc)

  no_body : (b : Bool) → (if b then resuming else at_header) ≡ at_body ty v n → P
  no_body true h = cc
  no_body false h = cc

  read_next-OnBody : (s : TcpSession) → OnBody (read_next s)
  unfolding read_next
  read_next-OnBody s h = no_body s.backpressure h

  on_ping-OnBody : (size : ℕ) (s : TcpSession) → OnBody (on_ping size s)
  unfolding on_ping
  on_ping-OnBody size s =
      if_cases OnBody (not (size == 0)) _ _ (λ e. give_up-OnBody s)
        (λ e. read_next-OnBody (send_pong s))

  on_pong-OnBody : (size : ℕ) (s : TcpSession) → OnBody (on_pong size s)
  unfolding on_pong
  on_pong-OnBody size s =
      if_cases OnBody (not (size == 0)) _ _ (λ e. give_up-OnBody s) (λ e. read_next-OnBody s)

-- The fields of the header are those of the body that the session waits for.
abbrev pub Asked : TcpServiceType → ℕ → ℕ → TcpServiceType → ℕ → ℕ → Type 0
Asked t version size ty v n = Request ty v n × (ty ≡ t) × (v ≡ version) × (n ≡ size)

asked :
    (t ty : TcpServiceType) (version size v n : ℕ)
    → ((t ≡ login) ⊎ (t ≡ receiving))
    → version ≡ v1
    → 1 ≤ size
    → size ≤ max_body_size
    → at_body t version size ≡ at_body ty v n
    → Asked t version size ty v n
asked t ty version size v n k one some_body small h =
    let same_t : t ≡ ty = cc in
    let same_v : version ≡ v = cc in
    let same_n : size ≡ n = cc in
    (
      record {
        served = elim k [ inl e ↦ inl (sym same_t ∙ e) | inr e ↦ inr (sym same_t ∙ e) ];
        at_v1 = sym same_v ∙ one;
        some_body = omega (arith, same_n);
        small = omega (arith, same_n);
      },
      sym same_t,
      sym same_v,
      sym same_n,
    )

pub right_false : (a b : Bool) → (a || not b) ≡ false → b ≡ true
right_false true true e = cc
right_false true false e = cc
right_false false true e = refl
right_false false false e = cc

pub not_served :
    (t : TcpServiceType)
    → t ≢ ping
    → t ≢ pong
    → t ≢ login
    → t ≢ receiving
    → (t ≡ ping) ⊎ (t ≡ pong) ⊎ (t ≡ login) ⊎ (t ≡ receiving)
    → ⊥
not_served t a b c d (inl e) = a e
not_served t a b c d (inr (inl e)) = b e
not_served t a b c d (inr (inr (inl e))) = c e
not_served t a b c d (inr (inr (inr e))) = d e

module _ (ty : TcpServiceType) (v n : ℕ) where
  on_request-Asked :
      (t : TcpServiceType) (version size : ℕ) (s : TcpSession)
      → ((t ≡ login) ⊎ (t ≡ receiving))
      → version ≡ v1
      → OnBody ty v n (Asked t version size ty v n) (on_request t version size s)
  unfolding on_request
  on_request-Asked t version size s k one =
      if_cases (OnBody ty v n (Asked t version size ty v n)) ((size == 0) || ltb max_body_size size)
        _ _ (λ e. give_up-OnBody ty v n (Asked t version size ty v n) s)
        (λ e h. asked t ty version size v n k one (positive e) (small e) h)
    where
      positive : ((size == 0) || ltb max_body_size size) ≡ false → 1 ≤ size
      positive e = ground arith

      small : ((size == 0) || ltb max_body_size size) ≡ false → size ≤ max_body_size
      small e = ground arith

  by_served :
      (version size : ℕ) (t : TcpServiceType)
      → is_supported_for t version ≡ true
      → (s : TcpSession) → OnBody ty v n (Asked t version size ty v n) (by_type t version size s)
  unfolding by_type
  by_served version size ping h s = on_ping-OnBody ty v n (Asked ping version size ty v n) size s
  by_served version size pong h s = on_pong-OnBody ty v n (Asked pong version size ty v n) size s
  by_served version size login h s =
      on_request-Asked login version size s (inl refl) ((is_supported_for_iff login version).0 h).0
  by_served version size receiving h s =
      on_request-Asked receiving version size s (inr refl)
        ((is_supported_for_iff receiving version).0 h).0
  by_served version size type_cnt h s = absurd (
      not_served type_cnt (λ e. cc) (λ e. cc) (λ e. cc) (λ e. cc)
        ((is_supported_for_iff type_cnt version).0 h).1)
  by_served version size (unlisted k) h s = absurd (
      not_served (unlisted k) (λ e. cc) (λ e. cc) (λ e. cc) (λ e. cc)
        ((is_supported_for_iff (unlisted k) version).0 h).1)

  on_fields-Asked :
      (t : TcpServiceType) (version size : ℕ) (s : TcpSession)
      → OnBody ty v n (Asked t version size ty v n) (on_fields t version size s)
  unfolding on_fields
  on_fields-Asked t version size s =
      if_cases (OnBody ty v n (Asked t version size ty v n))
        (leb (to_code type_cnt) (to_code t) || not (is_supported_for t version)) _ _
        (λ e. give_up-OnBody ty v n (Asked t version size ty v n) s)
        (λ e.
          by_served version size t (right_false _ _ e) (record s { peer_api_version = version }))

-- After a header the session only waits for a body whose type, version and size are the header's, if the
-- type is `Login` or `Receiving`, the version 1, and the size between 1 byte and 2 MB.
pub on_header-Asked :
    (e : BigEndian) (bytes : List ℕ) (now : ℕ) (s : TcpSession) (ty : TcpServiceType) (v n : ℕ)
    → (on_header e (some bytes) now s).reading ≡ at_body ty v n
    → let h = header_of_bytes e bytes in
      Asked (to_service_type h.service_type) h.api_version h.data_size ty v n
unfolding on_header
on_header-Asked e bytes now s ty v n =
    let h = header_of_bytes e bytes in
    on_fields-Asked ty v n (to_service_type h.service_type) h.api_version h.data_size
      (record s { last_rx = now })
