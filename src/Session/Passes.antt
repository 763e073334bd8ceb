-- ===== src/Session/Passes.antt =====
-- Where rounds of the loop of Session/Loop.antt lead, and that it gets there.
use zem.Base.{
  ℕ, zero, suc, ◌+◌, ◌<◌, ◌≡◌, refl, ◌∙◌, Option, none, some, List, arith, length, subst,
}
use zem.Protocol.{BigEndian}
use zem.Session.Read.{Handler}
use zem.Session.Loop.{Connection, advance, serve, serve-none, serve-some}
use zem.Session.Rounds.{measure, phase-le, Round, GoesOn, advance_at-GoesOn}

module _ (e : BigEndian) {World : Type 0} (handlers : List (Handler World)) (clock : ℕ → ℕ) where
  -- Rounds of the loop lead from `c` to `d`.
  pub data Passes (d : Connection World) : Connection World → Type 0 where
    done : Passes d d
    round : {c f : Connection World} → advance e handlers clock c ≡ some f → Passes d f → Passes d c

  pub Passes-append : {f d c : Connection World} → Passes d c → Passes f d → Passes f c
  Passes-append done q = q
  Passes-append (round h p) q = round h (Passes-append p q)

  advance-Round :
      (c d : Connection World) → advance e handlers clock c ≡ some d → Round e handlers c d
  advance-Round c d h =
      subst (GoesOn e handlers clock c) h
        (advance_at-GoesOn e handlers clock c.session.reading c refl)

  serve-falls :
      {d : Connection World} (n : ℕ) {c : Connection World}
      → Passes d c
      → advance e handlers clock d ≡ none
      → measure c < n
      → serve e handlers clock n c ≡ d
  serve-falls n {c} done stop h = serve-none e handlers clock n c stop
  serve-falls zero (round step p) stop h = absurd (omega arith)
  serve-falls (suc n) {c} (round {f = f} step p) stop h =
      serve-some e handlers clock n c f step
      ∙ serve-falls n p stop (omega (arith, (advance-Round c f step).falls))

  -- Where rounds lead to a rest, the loop gets there.
  pub serve-Passes :
      {c d : Connection World}
      → Passes d c
      → advance e handlers clock d ≡ none
      → serve e handlers clock (length c.input + 3) c ≡ d
  serve-Passes {c} p stop =
      serve-falls (length c.input + 3) p stop (omega (arith, phase-le c.session.reading))

  -- The loop gets to a rest by rounds.
  comes :
      (n : ℕ) (c : Connection World)
      → measure c < n
      → Passes (serve e handlers clock n c) c
        × (advance e handlers clock (serve e handlers clock n c) ≡ none)
  unfolding serve
  comes zero c h = absurd (omega arith)
  comes (suc n) c h = by_advance (advance e handlers clock c) refl (λ d. comes n d)
    where
      by_advance :
          (o : Option (Connection World))
          → advance e handlers clock c ≡ o
          → ((d : Connection World)
              → measure d < n
              → Passes (serve e handlers clock n d) d
                × (advance e handlers clock (serve e handlers clock n d) ≡ none))
          → let end = elim o as (λ x. Connection World) [
            | none ↦ c
            | some d ↦ serve e handlers clock n d
          ] in
            Passes end c × (advance e handlers clock end ≡ none)
      by_advance none g ih = (done, g)
      by_advance (some d) g ih =
          let (passes, stops) = ih d (omega (arith, (advance-Round c d g).falls)) in
          (round g passes, stops)

  pub serve_comes :
      (c : Connection World)
      → let end = serve e handlers clock (length c.input + 3) c in
        Passes end c × (advance e handlers clock end ≡ none)
  serve_comes c = comes (length c.input + 3) c (omega (arith, phase-le c.session.reading))
