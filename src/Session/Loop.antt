-- ===== src/Session/Loop.antt =====
-- `ReadLoop` over the bytes that a client has sent: its rounds, one after another, until it waits for more
-- bytes or for `m_resume_read`, or ends. Nothing else runs on the strand meanwhile.
use zem.Base.{
  ℕ, zero, suc, ◌≡◌, refl, ap, Option, none, some, List, leb, length, take, drop, if◌then◌else◌,
}
use zem.Protocol.{BigEndian, header_size}
use zem.Session.State.{
  TcpSession, Reading, starting, resuming, resumed, at_header, ended, at_body, handling,
}
use zem.Session.Read.{Handler, handler_of, read_next, resume, on_header, on_body, on_handled}

-- A session, the bytes from its client that were not read yet, and the handlers' world.
pub record Connection (World : Type 0) : Type 0 where
  pub input : List ℕ
  pub world : World
  pub session : TcpSession

-- `clock` gives the time of a read by the number of bytes that are left after it.
module _ (e : BigEndian) {World : Type 0} (handlers : List (Handler World)) (clock : ℕ → ℕ) where
  -- `async_read` of `n` bytes gives them once they are there.
  unfoldable pub receive :
      ℕ → (List ℕ → ℕ → TcpSession → TcpSession) → Connection World → Option (Connection World)
  receive n ends c =
      if leb n (length c.input)
      then some (record c {
        input = drop n c.input;
        session = ends (take n c.input) (clock (length (drop n c.input))) c.session;
      })
      else none

  unfoldable pub call :
      Option (Handler World) → ℕ → List ℕ → Connection World → Option (Connection World)
  call none version body c = none
  call (some h) version body c =
      let o = h version body c.world in
      some (record c { world = o.world; session = on_handled o c.session })

  -- From one wait of the loop to the next.
  unfoldable pub advance_at : Reading → Connection World → Option (Connection World)
  unfolding receive call
  advance_at starting c = some (record c { session = read_next c.session })
  advance_at resuming c = none
  advance_at resumed c = some (record c { session = resume c.session })
  advance_at at_header c = receive header_size (λ bytes now. on_header e (some bytes) now) c
  advance_at (at_body t v n) c = receive n (λ bytes now. on_body t v (some bytes) now) c
  advance_at (handling t v body) c = call (handler_of handlers t) v body c
  advance_at ended c = none

  abbrev pub advance : Connection World → Option (Connection World)
  advance c = advance_at c.session.reading c

  -- The loop, for so many waits.
  unfoldable pub serve : ℕ → Connection World → Connection World
  serve zero c = c
  serve (suc n) c = elim (advance c) [ none ↦ c | some d ↦ serve n d ]

  pub serve-none : (n : ℕ) (c : Connection World) → advance c ≡ none → serve n c ≡ c
  unfolding serve
  serve-none zero c h = refl
  serve-none (suc n) c h =
      ap (λ o. elim o as (λ x. Connection World) [ none ↦ c | some d ↦ serve n d ]) h

  pub serve-some :
      (n : ℕ) (c d : Connection World) → advance c ≡ some d → serve (suc n) c ≡ serve n d
  unfolding serve
  serve-some n c d h =
      ap (λ o. elim o as (λ x. Connection World) [ none ↦ c | some d ↦ serve n d ]) h
