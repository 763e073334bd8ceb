-- ===== src/Server/Serving.antt =====
-- A session of a `TcpServer`: with its handlers, it never stands still for want of one.
use zem.Base.{ℕ, ◌≡◌, ◌≢◌, refl, ◌⊎◌, inl, inr, true, some, List, length}
use zem.Protocol.{BigEndian, TcpServiceType, login, receiving}
use zem.Protocol.ApiVersion.{is_supported_for}
use zem.Protocol.Versions.{is_supported_for_iff}
use zem.Session.State.{TcpSession, handling}
use zem.Session.Read.{Handler, handler_of, on_handled}
use zem.Session.Steps.{Step, Reach, handles}
use zem.Session.Requests.{Request}
use zem.Session.Handled.{Reach-Proper}
use zem.Server.Handlers.{login_handler, unhandled, make_handlers_lem}
use zem.Server.Tcp.{TcpServer, session_handlers}

served : (t : TcpServiceType) (v n : ℕ) → Request t v n → is_supported_for t v ≡ true
served t v n r =
    (is_supported_for_iff t v).1
      (r.at_v1, elim r.served [ inl e ↦ inr (inr (inl e)) | inr e ↦ inr (inr (inr e)) ])

module _ {World : Type 0} (server : TcpServer World) (e : BigEndian) where
  -- Whenever a session of the server is about to call a handler, `m_handlers` has one for the type of the
  -- request: for a login the login handler, and for any other type the one that closes the connection. So
  -- the index is never out of range, and the session can go on, in any state of the handlers' world.
  pub handling-handler_of :
      {s : TcpSession} (t : TcpServiceType) (v : ℕ) (body : List ℕ) (w : World)
      → Reach e (session_handlers server) s
      → s.reading ≡ handling t v body
      → (h : Handler World) × (handler_of (session_handlers server) t ≡ some h)
        × (((t ≡ login) × (h ≡ login_handler server.login_usecase))
            ⊎ ((t ≡ receiving) × (h ≡ unhandled)))
        × Step e (session_handlers server) s (on_handled (h v body w) s)
  handling-handler_of {s} t v body w r now =
      let request = (Reach-Proper e (session_handlers server) r).given t v body now in
      elim (make_handlers_lem server.login_usecase t v (served t v (length body) request)) [
        | inl one ↦ (
          login_handler server.login_usecase,
          one.1,
          inl (one.0, refl),
          handles t v body (login_handler server.login_usecase) w now one.1,
        )
        | inr other ↦ (
          unhandled,
          other.1,
          inr (not_login request other.0, refl),
          handles t v body unhandled w now other.1,
        )
      ]
    where
      not_login : Request t v (length body) → t ≢ login → t ≡ receiving
      not_login request n = elim request.served [ inl l ↦ absurd (n l) | inr k ↦ k ]
