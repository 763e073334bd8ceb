-- ===== src/Session/Placed.antt =====
-- What handlers do to their connection, wherever its read loop is.
use zem.Base.{
  ℕ, ◌≡◌, refl, ap, ◌∙◌, Bool, true, false, List, [], ◌∷◌, ◌++◌, if◌then◌else◌, if_cases,
}
use zem.Protocol.{Call, send, close}
use zem.Session.State.{TcpSession, cleanup, Reading, resuming, at_header, ended, shutdown, post}
use zem.Session.Send.{perform, perform_all, send_frame}
use zem.Session.Read.{Outcome, read_next, give_up, on_handled}
use zem.Session.Conversation.{placed}

pub shutdown-placed :
    (now : ℕ) (r : Reading) (s : TcpSession) → shutdown (placed now r s) ≡ placed now r (shutdown s)
unfolding shutdown
shutdown-placed now r s = by_closed s.is_closed
  where
    by_closed :
        (b : Bool)
        → (if b
            then placed now r s
            else post cleanup (record (placed now r s) { is_closed = true }))
          ≡ placed now r (if b then s else post cleanup (record s { is_closed = true }))
    by_closed true = refl
    by_closed false = refl

-- What a handler does to its connection does not depend on where the read loop is, and leaves it there.
perform-placed :
    (c : Call) (now : ℕ) (r : Reading) (s : TcpSession)
    → perform c (placed now r s) ≡ placed now r (perform c s)
unfolding perform send_frame
perform-placed (send t body v) now r s = refl
perform-placed close now r s = shutdown-placed now r s

pub perform_all-placed :
    (cs : List Call) (now : ℕ) (r : Reading) (s : TcpSession)
    → perform_all cs (placed now r s) ≡ placed now r (perform_all cs s)
unfolding perform_all
perform_all-placed [] now r s = refl
perform_all-placed (c ∷ cs) now r s =
    ap (perform_all cs) (perform-placed c now r s) ∙ perform_all-placed cs now r (perform c s)

pub perform_all-append :
    (cs ds : List Call) (s : TcpSession)
    → perform_all (cs ++ ds) s ≡ perform_all ds (perform_all cs s)
unfolding perform_all
perform_all-append [] ds s = refl
perform_all-append (c ∷ cs) ds s = perform_all-append cs ds (perform c s)

perform-backpressure : (c : Call) (s : TcpSession) → (perform c s).backpressure ≡ s.backpressure
unfolding perform send_frame shutdown
perform-backpressure (send t body v) s = refl
perform-backpressure close s =
    if_cases (λ (t : TcpSession). t.backpressure ≡ s.backpressure) s.is_closed _ _ (λ e. refl)
      (λ e. refl)

pub perform_all-backpressure :
    (cs : List Call) (s : TcpSession) → (perform_all cs s).backpressure ≡ s.backpressure
unfolding perform_all
perform_all-backpressure [] s = refl
perform_all-backpressure (c ∷ cs) s =
    perform_all-backpressure cs (perform c s) ∙ perform-backpressure c s

read_next-placed :
    (now : ℕ) (r : Reading) (s : TcpSession)
    → s.backpressure ≡ false
    → read_next (placed now r s) ≡ placed now at_header s
unfolding read_next
read_next-placed now r s h = ap (λ b. placed now (if b then resuming else at_header) s) h

give_up-placed :
    (now : ℕ) (r : Reading) (s : TcpSession)
    → give_up (placed now r s) ≡ placed now ended (shutdown s)
unfolding give_up
give_up-placed now r s = shutdown-placed now ended s

-- The calls of a handler and what follows them.
pub on_handled-throws :
    {World : Type 0} (o : Outcome World) (now : ℕ) (r : Reading) (s : TcpSession)
    → o.threw ≡ true
    → on_handled o (placed now r s) ≡ placed now ended (shutdown (perform_all o.calls s))
unfolding on_handled
on_handled-throws o now r s h =
    rw h (
      ap give_up (perform_all-placed o.calls now r s)
      ∙ give_up-placed now r (perform_all o.calls s))

pub on_handled-goes_on :
    {World : Type 0} (o : Outcome World) (now : ℕ) (r : Reading) (s : TcpSession)
    → s.backpressure ≡ false
    → o.threw ≡ false
    → on_handled o (placed now r s) ≡ placed now at_header (perform_all o.calls s)
unfolding on_handled
on_handled-goes_on o now r s free h = rw h (
    ap read_next (perform_all-placed o.calls now r s)
    ∙ read_next-placed now r (perform_all o.calls s) (perform_all-backpressure o.calls s ∙ free))
