-- ===== src/Session/Conversed.antt =====
-- The loop of Session/Loop.antt over whole messages, and the answers of Session/Conversation.antt.
use zem.Base.{
  ℕ, ◌+◌, ◌≡◌, refl, sym, ap, ◌∙◌, inl, inr, Bool, true, false, none, some, List, [], ◌∷◌, ◌++◌,
  if◌then◌else◌, length, Bool-cases, subst, All,
}
use zem.Protocol.{BigEndian, TcpServiceType}
use zem.Protocol.ApiVersion.{v1}
use zem.Session.State.{TcpSession, cleanup, post, at_header, ended, resuming, shutdown}
use zem.Session.Send.{perform_all}
use zem.Session.Read.{Outcome, Handler, handler_of, on_handled, give_up, read_next}
use zem.Session.Passes.{Passes, done, Passes-append, serve-Passes}
use zem.Session.Loop.{Connection, receive, advance_at, advance, serve}
use zem.Session.Placed.{
  shutdown-placed, perform_all-append, perform_all-backpressure, on_handled-throws,
  on_handled-goes_on,
}
use zem.Session.Conversation.{
  Message, message_bytes, conversation_bytes, Served, IsSendable, answer, unless_thrown, converse,
  placed,
}
use zem.Session.Answered.{at_input, Exchange, answers}

-- The session with other values of what it has heard from its client.
abbrev pub heard : ℕ → TcpSession → TcpSession
heard now s = record s { last_rx = now; peer_api_version = v1 }

-- What a session with the answers `o` comes to: the world of the answers, and the session that they
-- leave, but for the time of the last bytes and the version; and all the input is read, unless a
-- handler has thrown.
pub record Answered {World : Type 0} (o : Outcome World) (s : TcpSession) (c : Connection World)
    : Type 0 where
  pub world : c.world ≡ o.world
  pub last : ℕ
  pub session : c.session ≡ heard last (on_handled o s)
  pub input : o.threw ≡ false → c.input ≡ []

pub heard-read_next :
    (now : ℕ) (s : TcpSession)
    → s.backpressure ≡ false
    → placed now at_header s ≡ heard now (read_next s)
unfolding read_next
heard-read_next now s free = sym (ap (λ b. placed now (if b then resuming else at_header) s) free)

heard-shutdown : (now : ℕ) (s : TcpSession) → shutdown (heard now s) ≡ heard now (shutdown s)
unfolding shutdown
heard-shutdown now s = by_closed s.is_closed
  where
    by_closed :
        (b : Bool)
        → (if b then heard now s else post cleanup (record (heard now s) { is_closed = true }))
          ≡ heard now (if b then s else post cleanup (record s { is_closed = true }))
    by_closed true = refl
    by_closed false = refl

heard-give_up : (now : ℕ) (s : TcpSession) → placed now ended (shutdown s) ≡ heard now (give_up s)
unfolding give_up
heard-give_up now s =
    sym (shutdown-placed now ended s) ∙ heard-shutdown now (record s { reading = ended })

on_handled-threw :
    {World : Type 0} (o : Outcome World) (now : ℕ) (s : TcpSession)
    → o.threw ≡ true
    → placed now ended (shutdown (perform_all o.calls s)) ≡ heard now (on_handled o s)
unfolding on_handled
on_handled-threw o now s h = rw h (heard-give_up now (perform_all o.calls s))

-- What is left of a round, once the calls of the first answer are performed.
on_handled-append :
    {World : Type 0} (o o' : Outcome World) (s : TcpSession)
    → on_handled o' (perform_all o.calls s)
      ≡ on_handled (record o' { calls = o.calls ++ o'.calls }) s
unfolding on_handled
on_handled-append o o' s =
    ap (λ t. if o'.threw then give_up t else read_next t)
      (sym (perform_all-append o.calls o'.calls s))

module _ (e : BigEndian) {World : Type 0} (handlers : List (Handler World)) (clock : ℕ → ℕ)
    (handler : TcpServiceType → Handler World)
    (table : (t : TcpServiceType) → Served t → handler_of handlers t ≡ some (handler t)) where
  -- The loop passes over the messages to a rest, with their answers.
  record Conversed (ms : List Message) (w : World) (now : ℕ) (s : TcpSession) : Type 0 where
    end : Connection World
    passes :
        Passes e handlers clock end (at_input (conversation_bytes e ms) w (placed now at_header s))
    stops : advance e handlers clock end ≡ none
    answered : Answered (converse handler ms w) s end

  converse_end :
      (w : World) (now : ℕ) (s : TcpSession) → s.backpressure ≡ false → Conversed [] w now s
  unfolding converse advance_at receive on_handled perform_all
  converse_end w now s free = record {
    end = at_input [] w (placed now at_header s);
    passes = done;
    stops = refl;
    answered = record {
      world = refl;
      last = now;
      session = heard-read_next now s free;
      input = λ h. refl;
    };
  }

  module _ (m : Message) (ms : List Message) (w : World) (now : ℕ) (s : TcpSession)
      (first : Exchange e handlers clock handler m w now s (conversation_bytes e ms)) where
    abbrev o : Outcome World
    o = answer handler m w

    converse_threw : o.threw ≡ true → Conversed (m ∷ ms) w now s
    unfolding converse advance_at
    converse_threw h =
        let left : TcpSession = placed first.later ended (shutdown (perform_all o.calls s)) in
        let rest = conversation_bytes e ms in
        record {
          end = at_input rest o.world left;
          passes =
              subst
                (λ x.
                  Passes e handlers clock (at_input rest o.world x)
                    (at_input (message_bytes e m ++ rest) w (placed now at_header s)))
                (on_handled-throws o first.later first.place s h) first.passes;
          stops = refl;
          answered =
              subst
                (λ b.
                  Answered (unless_thrown b o (converse handler ms o.world)) s
                    (at_input rest o.world left))
                (sym h)
                (record {
                  world = refl;
                  last = first.later;
                  session = on_handled-threw o first.later s h;
                  input = λ f. cc;
                });
        }

    converse_goes_on :
        s.backpressure ≡ false
        → o.threw ≡ false
        → Conversed ms o.world first.later (perform_all o.calls s)
        → Conversed (m ∷ ms) w now s
    unfolding converse
    converse_goes_on free h rest = record {
      end = rest.end;
      passes =
          Passes-append e handlers clock
            (subst
              (λ x. Passes e handlers clock (at_input (conversation_bytes e ms) o.world x) (
                at_input (message_bytes e m ++ conversation_bytes e ms) w (placed now at_header s)))
              (on_handled-goes_on o first.later first.place s free h) first.passes)
            rest.passes;
      stops = rest.stops;
      answered =
          subst (λ b. Answered (unless_thrown b o (converse handler ms o.world)) s rest.end) (sym h)
            (record {
              world = rest.answered.world;
              last = rest.answered.last;
              session =
                  rest.answered.session
                  ∙ ap (heard rest.answered.last)
                      (on_handled-append o (converse handler ms o.world) s);
              input = rest.answered.input;
            });
    }

  conversed :
      (ms : List Message) (w : World) (now : ℕ) (s : TcpSession)
      → All IsSendable ms
      → s.backpressure ≡ false
      → Conversed ms w now s
  conversed [] w now s ok free = converse_end w now s free
  conversed (m ∷ ms) w now s ok free =
      let first = answers e handlers clock handler table m ok.0 w now s (conversation_bytes e ms) in
      let o = answer handler m w in
      let rest =
        conversed ms o.world first.later (perform_all o.calls s) ok.1
          (perform_all-backpressure o.calls s ∙ free) in
      elim (Bool-cases o.threw) [
        | inl h ↦ converse_threw m ms w now s first h
        | inr h ↦ converse_goes_on m ms w now s first free h rest
      ]

  -- A session that waits for a header, without backpressure, and is sent any sequence of pings,
  -- pongs and requests of the served types with bodies between 1 byte and 2 MB, in one piece: its
  -- loop leaves the world and the session as the answers do, in the order of the messages, up to
  -- the first handler that throws, and has then ended or reads on. Only the time of the last bytes
  -- and the version of the client differ. Unless a handler has thrown, all bytes are read. That
  -- holds for any handlers that are found for the served types, and for any clock.
  pub serve-Answered :
      (ms : List Message) (w : World) (now : ℕ) (s : TcpSession)
      → All IsSendable ms
      → s.backpressure ≡ false
      → let input = conversation_bytes e ms in
        Answered
          (converse handler ms w)
          s
          (serve e handlers clock (length input + 3) (at_input input w (placed now at_header s)))
  serve-Answered ms w now s ok free =
      let c = conversed ms w now s ok free in
      subst (Answered (converse handler ms w) s)
        (sym (serve-Passes e handlers clock c.passes c.stops)) c.answered
