-- ===== src/Session/Chunks.antt =====
-- That the read loop of Session/Loop.antt does not depend on how TCP cuts the bytes of a client.
use zem.Base.{
  ℕ, zero, suc, ◌+◌, ◌≤◌, ◌≡◌, refl, sym, ap, ap₂, ◌∙◌, ◌⊎◌, inl, inr, true, Option, none, some,
  List, [], ◌∷◌, ◌++◌, arith, leb, leb→le, length, take, drop, take-append_le, if_cases,
  length-append,
}
use zem.Protocol.{BigEndian, header_size}
use zem.Session.State.{
  TcpSession, Reading, starting, resuming, resumed, at_header, ended, at_body, handling,
}
use zem.Session.Read.{Handler, handler_of, on_header, on_body}
use zem.Session.Loop.{Connection, receive, call, advance_at, advance, serve}
use zem.Session.Passes.{Passes, done, round, Passes-append, serve-Passes, serve_comes}

-- More bytes arrive.
abbrev pub feed : {World : Type 0} → List ℕ → Connection World → Connection World
feed more c = record c { input = c.input ++ more }

drop-append_le : (n : ℕ) (xs ys : List ℕ) → n ≤ length xs → drop n (xs ++ ys) ≡ drop n xs ++ ys
drop-append_le zero xs ys h = refl
drop-append_le (suc n) [] ys h = absurd (omega arith)
drop-append_le (suc n) (x ∷ xs) ys h = drop-append_le n xs ys (omega arith)

-- What a round leads to, with more bytes behind it.
abbrev fed : {World : Type 0} → List ℕ → Option (Connection World) → Option (Connection World)
fed more none = none
fed more (some d) = some (feed more d)

module _ (e : BigEndian) {World : Type 0} (handlers : List (Handler World)) (now : ℕ) where
  -- All at one time.
  abbrev at_once : ℕ → ℕ
  at_once n = now

  -- A round that is over does not depend on what arrives later.
  abbrev Same : List ℕ → Option (Connection World) → Option (Connection World) → Type 0
  Same more o p = (o ≡ none) ⊎ (p ≡ fed more o)

  receive-feed :
      (n : ℕ) (ends : List ℕ → ℕ → TcpSession → TcpSession) (more : List ℕ) (c : Connection World)
      → Same more
          (receive e handlers at_once n ends c)
          (receive e handlers at_once n ends (feed more c))
  unfolding receive
  receive-feed n ends more c =
      if_cases (λ o. Same more o (receive e handlers at_once n ends (feed more c)))
        (leb n (length c.input)) _ _ (λ h. inr (enough (leb→le n (length c.input) h)))
        (λ h. inl refl)
    where
      enough :
          n ≤ length c.input
          → receive e handlers at_once n ends (feed more c)
            ≡ some (record c {
              input = drop n c.input ++ more;
              session = ends (take n c.input) now c.session;
            })
      enough small =
          let all : leb n (length (c.input ++ more)) ≡ true =
            ground (arith, length-append c.input more) in
          rw all (
            ap₂ (λ x y. some (record c { input = y; session = ends x now c.session }))
              (take-append_le n c.input more small) (drop-append_le n c.input more small))

  call-feed :
      (h : Option (Handler World)) (v : ℕ) (body more : List ℕ) (c : Connection World)
      → Same more
          (call e handlers at_once h v body c)
          (call e handlers at_once h v body (feed more c))
  unfolding call
  call-feed none v body more c = inl refl
  call-feed (some h) v body more c = inr refl

  advance-feed :
      (r : Reading) (more : List ℕ) (c : Connection World)
      → Same more
          (advance_at e handlers at_once r c)
          (advance_at e handlers at_once r (feed more c))
  unfolding advance_at
  advance-feed starting more c = inr refl
  advance-feed resuming more c = inl refl
  advance-feed resumed more c = inr refl
  advance-feed at_header more c =
      receive-feed header_size (λ bytes at. on_header e (some bytes) at) more c
  advance-feed ended more c = inl refl
  advance-feed (at_body t v n) more c =
      receive-feed n (λ bytes at. on_body t v (some bytes) at) more c
  advance-feed (handling t v body) more c = call-feed (handler_of handlers t) v body more c

  advance-fed :
      (more : List ℕ) (c d : Connection World)
      → advance e handlers at_once c ≡ some d
      → advance e handlers at_once (feed more c) ≡ some (feed more d)
  advance-fed more c d h = elim (advance-feed c.session.reading more c) [
    | inl stopped ↦ cc
    | inr same ↦ same ∙ ap (fed more) h
  ]

  Passes-feed :
      (more : List ℕ) {d c : Connection World}
      → Passes e handlers at_once d c
      → Passes e handlers at_once (feed more d) (feed more c)
  Passes-feed more done = done
  Passes-feed more {d} {c} (round {f = f} h p) = round (advance-fed more c f h) (Passes-feed more p)

  -- The loop, for as many waits as it takes.
  abbrev pub serve_all : Connection World → Connection World
  serve_all c = serve e handlers at_once (length c.input + 3) c

  -- However TCP cuts the bytes of a client, the loop does the same with them: if it has come to a
  -- rest and more bytes arrive, then it comes to the same world and the same session, and leaves
  -- the same bytes, as if these had been there from the beginning, all at one time of the clock.
  pub serve-feed :
      (more : List ℕ) (c : Connection World)
      → serve_all (feed more (serve_all c)) ≡ serve_all (feed more c)
  serve-feed more c =
      let first = serve_comes e handlers at_once c in
      let second = serve_comes e handlers at_once (feed more (serve_all c)) in
      sym (
        serve-Passes e handlers at_once
          (Passes-append e handlers at_once (Passes-feed more first.0) second.0) second.1)
