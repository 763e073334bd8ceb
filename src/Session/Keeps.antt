-- ===== src/Session/Keeps.antt =====
-- Both coroutines, and the calls of handlers, leave the write queue alone: they move the fields of
-- `MovesOf` and shut the session down. What these two keep, all of their functions keep.
use zem.Base.{
  arith, length, ◌≡◌, refl, ◌⊎◌, inl, inr, true, ℕ, not, ◌||◌, Option, none, some, List, [], ◌∷◌,
  ◌++◌, leb, ltb, ◌==◌, if◌then◌else◌, if_cases,
}
use zem.Protocol.{
  BigEndian, TcpServiceType, ping, pong, type_cnt, to_service_type, to_code, header_of_bytes, Call,
  send, close,
}
use zem.Protocol.{login, receiving, unlisted}
use zem.Protocol.ApiVersion.{v1, is_supported_for}
use zem.Protocol.Versions.{is_supported_for_iff}
use zem.Session.State.{
  TcpSession, Task, frame, Reading, ended, resuming, at_header, at_body, handling, Beating, stopped,
  shutdown, max_body_size,
}
use zem.Session.Send.{send_frame, send_pong, perform, perform_all}
use zem.Session.Goes.{
  Goes, stays, cleanups, cleanups-append, Goes-header, Goes-wait, Goes-body, Goes-handler,
}
use zem.Session.Requests.{right_false, not_served, request_of}
use zem.Session.Read.{
  Outcome, give_up, read_next, resume, on_ping, on_pong, on_request, by_type, on_fields, on_header,
  on_body, on_handled,
}
use zem.Session.Heartbeat.{expire}

abbrev pub MovesOf : (TcpSession → Type 0) → Type 0
MovesOf P =
    (s : TcpSession) (tasks : List Task) (reading : Reading) (beating : Beating)
    (last_rx peer_api_version hb_expiry : ℕ)
    → Goes s tasks reading beating
    → P s
    → P (record s {
      tasks = tasks;
      reading = reading;
      beating = beating;
      last_rx = last_rx;
      peer_api_version = peer_api_version;
      hb_expiry = hb_expiry;
    })

-- The read loop's share of that.
abbrev pub ReadsOf : (TcpSession → Type 0) → Type 0
ReadsOf P =
    (s : TcpSession) (tasks : List Task) (reading : Reading) (peer_api_version : ℕ)
    → Goes s tasks reading s.beating
    → P s
    → P (record s { tasks = tasks; reading = reading; peer_api_version = peer_api_version })

pub reads_of : (P : TcpSession → Type 0) → MovesOf P → ReadsOf P
reads_of P moves s tasks reading version =
    moves s tasks reading s.beating s.last_rx version s.hb_expiry

-- What ends a coroutine closes the session.
pub record EndsOf (P : TcpSession → Type 0) : Type 0 where
  pub shuts : (s : TcpSession) → P s → P (shutdown s)
  pub gives_up : (s : TcpSession) → P s → P (give_up s)

pub record ClosesOf (P : TcpSession → Type 0) : Type 0 where
  pub ends : EndsOf P
  pub expires : (s : TcpSession) → P s → P (expire s)

-- A predicate that looks at neither coroutine.
pub closes_of :
    (P : TcpSession → Type 0)
    → ((s : TcpSession) → P s → P (shutdown s))
    → ((s : TcpSession) → P s → P (record s { reading = ended }))
    → ((s : TcpSession) → P s → P (record s { beating = stopped }))
    → ClosesOf P
unfolding give_up expire
closes_of P shuts ends stops = record {
  ends = record {
    shuts = shuts;
    gives_up = λ s v. shuts (record s { reading = ended }) (ends s v);
  };
  expires = λ s v. shuts (record s { beating = stopped }) (stops s v);
}

posted :
    (ts : List Task) (type : TcpServiceType) (body : Option (List ℕ)) (version : ℕ)
    → cleanups (ts ++ frame type body version ∷ []) ≡ cleanups ts
posted ts type body version = omega (arith, cleanups-append ts (frame type body version ∷ []))

-- The top of the loop.
Goes-next :
    (s : TcpSession) → Goes s s.tasks (if s.backpressure then resuming else at_header) s.beating
Goes-next s =
    if_cases (λ r. Goes s s.tasks r s.beating) s.backpressure _ _ (λ e. Goes-wait s e)
      (λ e. Goes-header s)

module _ (P : TcpSession → Type 0) (closes : EndsOf P) (moves : ReadsOf P) where
  reads :
      (s : TcpSession) (r : Reading)
      → Goes s s.tasks r s.beating
      → P s
      → P (record s { reading = r })
  reads s r = moves s s.tasks r s.peer_api_version

  pub send_frame-keeps :
      (type : TcpServiceType) (body : Option (List ℕ)) (version : ℕ) (s : TcpSession)
      → P s
      → P (send_frame type body version s)
  unfolding send_frame
  send_frame-keeps type body version s =
      moves s (s.tasks ++ frame type body version ∷ []) s.reading s.peer_api_version
        (stays s (s.tasks ++ frame type body version ∷ []) (posted s.tasks type body version))

  perform-keeps : (c : Call) (s : TcpSession) → P s → P (perform c s)
  unfolding perform
  perform-keeps (send type body version) s v = send_frame-keeps type body version s v
  perform-keeps close s v = closes.shuts s v

  perform_all-keeps : (cs : List Call) (s : TcpSession) → P s → P (perform_all cs s)
  unfolding perform_all
  perform_all-keeps [] s v = v
  perform_all-keeps (c ∷ cs) s v = perform_all-keeps cs (perform c s) (perform-keeps c s v)

  pub give_up-keeps : (s : TcpSession) → P s → P (give_up s)
  give_up-keeps s v = closes.gives_up s v

  pub read_next-keeps : (s : TcpSession) → P s → P (read_next s)
  unfolding read_next
  read_next-keeps s v = reads s (if s.backpressure then resuming else at_header) (Goes-next s) v

  pub resume-keeps : (s : TcpSession) → P s → P (resume s)
  unfolding resume
  resume-keeps s v = reads s at_header (Goes-header s) v

  on_request-keeps :
      (t : TcpServiceType) (version size : ℕ) (s : TcpSession)
      → ((t ≡ login) ⊎ (t ≡ receiving))
      → version ≡ v1
      → P s
      → P (on_request t version size s)
  unfolding on_request
  on_request-keeps t version size s k one v =
      if_cases P ((size == 0) || ltb max_body_size size) _ _ (λ e. give_up-keeps s v)
        (λ e.
          reads s (at_body t version size)
            (Goes-body s t version size (request_of t version size k one e)) v)

  by_type-keeps :
      (t : TcpServiceType) (version size : ℕ) (s : TcpSession)
      → is_supported_for t version ≡ true
      → P s
      → P (by_type t version size s)
  unfolding by_type on_ping on_pong send_pong
  by_type-keeps ping version size s h v =
      if_cases P (not (size == 0)) _ _ (λ e. give_up-keeps s v)
        (λ e. read_next-keeps _ (send_frame-keeps pong none s.peer_api_version s v))
  by_type-keeps pong version size s h v =
      if_cases P (not (size == 0)) _ _ (λ e. give_up-keeps s v) (λ e. read_next-keeps s v)
  by_type-keeps login version size s h v =
      on_request-keeps login version size s (inl refl) ((is_supported_for_iff login version).0 h).0
        v
  by_type-keeps receiving version size s h v =
      on_request-keeps receiving version size s (inr refl)
        ((is_supported_for_iff receiving version).0 h).0 v
  by_type-keeps type_cnt version size s h v = absurd (
      not_served type_cnt (λ e. cc) (λ e. cc) (λ e. cc) (λ e. cc)
        ((is_supported_for_iff type_cnt version).0 h).1)
  by_type-keeps (unlisted k) version size s h v = absurd (
      not_served (unlisted k) (λ e. cc) (λ e. cc) (λ e. cc) (λ e. cc)
        ((is_supported_for_iff (unlisted k) version).0 h).1)

  on_fields-keeps :
      (t : TcpServiceType) (version size : ℕ) (s : TcpSession)
      → P s
      → P (on_fields t version size s)
  unfolding on_fields
  on_fields-keeps t version size s v =
      if_cases P (leb (to_code type_cnt) (to_code t) || not (is_supported_for t version)) _ _
        (λ h. give_up-keeps s v)
        (λ h.
          by_type-keeps t version size (record s { peer_api_version = version }) (right_false _ _ h)
            (moves s s.tasks s.reading version (stays s s.tasks refl) v))

  pub on_header-keeps :
      (e : BigEndian) (bytes : Option (List ℕ)) (now : ℕ) (s : TcpSession)
      → P s
      → P (record s { last_rx = now })
      → P (on_header e bytes now s)
  unfolding on_header
  on_header-keeps e none now s v heard = give_up-keeps s v
  on_header-keeps e (some bytes) now s v heard =
      let h = header_of_bytes e bytes in
      on_fields-keeps (to_service_type h.service_type) h.api_version h.data_size
        (record s { last_rx = now }) heard

  pub on_body-keeps :
      (t : TcpServiceType) (version : ℕ) (bytes : List ℕ) (now : ℕ) (s : TcpSession)
      → s.reading ≡ at_body t version (length bytes)
      → P (record s { last_rx = now })
      → P (on_body t version (some bytes) now s)
  unfolding on_body
  on_body-keeps t version bytes now s h heard =
      reads (record s { last_rx = now }) (handling t version bytes)
        (Goes-handler (record s { last_rx = now }) t version bytes h) heard

  pub on_body-keeps_error :
      (t : TcpServiceType) (version now : ℕ) (s : TcpSession)
      → P s
      → P (on_body t version none now s)
  unfolding on_body
  on_body-keeps_error t version now s v = give_up-keeps s v

  pub on_handled-keeps :
      {World : Type 0} (o : Outcome World) (s : TcpSession) → P s → P (on_handled o s)
  unfolding on_handled
  on_handled-keeps o s v =
      let after = perform_all-keeps o.calls s v in
      if_cases P o.threw _ _ (λ e. give_up-keeps (perform_all o.calls s) after)
        (λ e. read_next-keeps (perform_all o.calls s) after)
