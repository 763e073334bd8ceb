-- ===== src/Session/Jitter.antt =====
-- Session/Common/ThreadLocal.hpp, and the heartbeat's draws from it. Each thread of the server has a generator
-- of its own, and a session draws from that of the thread which runs its strand.
use zem.Base.{
  ℕ, ◌-◌, ◌≤◌, ◌≡◌, ◌≢◌, refl, sym, subst, ap, ◌⊎◌, inl, inr, Bool, true, false, List, ◌==◌, ==_iff,
  leb, if◌then◌else◌, if_cases, arith, Bool-cases,
}
use zem.Protocol.{BigEndian}
use zem.Session.State.{
  TcpSession, Beating, stopped, unstarted, sleeping, in_grace, soft_idle, hard_idle, max_jitter,
}
use zem.Session.Read.{Handler}
use zem.Session.Heartbeat.{beat, expire, probe, on_interval, on_grace}
use zem.Session.Steps.{Step, starts_beating, wakes, wakes_from_grace}

-- `std::mt19937` under a `std::uniform_int_distribution<int>`: a draw from a range, and the generator after it.
pub record Random (Generator : Type 0) : Type 0 where
  pub draw : ℕ → ℕ → Generator → ℕ × Generator

-- What the distribution guarantees.
pub record InRange {Generator : Type 0} (random : Random Generator) : Type 0 where
  pub below : (lo hi : ℕ) (g : Generator) → lo ≤ hi → (random.draw lo hi g).0 ≤ hi

-- `RandomGenerator`, by the thread.
abbrev pub Generators : Type 0 → Type 0
Generators Generator = ℕ → Generator

module _ {Generator : Type 0} (random : Random Generator) (thread : ℕ) where
  -- `m_hb_jitter(TCPSessionThreadLocal::RandomGenerator)`
  unfoldable pub hb_jitter : Generators Generator → ℕ × Generators Generator
  hb_jitter generators =
      let (jitter, after) = random.draw 0 max_jitter (generators thread) in
      (jitter, λ q. if q == thread then after else generators q)

  -- The top of `Heartbeat` draws if the session is open.
  unfoldable pub draw_beat :
      ℕ → Generators Generator → TcpSession → TcpSession × Generators Generator
  unfolding hb_jitter
  draw_beat now generators s =
      let (jitter, after) = hb_jitter generators in
      if s.is_closed then (beat now 0 s, generators) else (beat now jitter s, after)

  unfoldable pub draw_interval :
      Bool → ℕ → Generators Generator → TcpSession → TcpSession × Generators Generator
  unfolding draw_beat
  draw_interval aborted now generators s =
      let idle = now - s.last_rx in
      if aborted
      then draw_beat now generators s
      else if leb hard_idle idle
      then (expire s, generators)
      else if leb soft_idle idle
      then (probe now s, generators)
      else draw_beat now generators s

  unfoldable pub draw_grace :
      Bool → ℕ → Generators Generator → TcpSession → TcpSession × Generators Generator
  unfolding draw_beat
  draw_grace aborted now generators s =
      let idle_after_ping = now - s.last_rx in
      if aborted
      then draw_beat now generators s
      else if leb hard_idle idle_after_ping
      then (expire s, generators)
      else draw_beat now generators s

  -- From where `Heartbeat` waits to its next wait, or to its end.
  unfoldable pub heartbeat_at :
      Beating → Bool → ℕ → Generators Generator → TcpSession → TcpSession × Generators Generator
  unfolding draw_beat draw_interval draw_grace
  heartbeat_at unstarted aborted now generators s = draw_beat now generators s
  heartbeat_at sleeping aborted now generators s = draw_interval aborted now generators s
  heartbeat_at in_grace aborted now generators s = draw_grace aborted now generators s
  heartbeat_at stopped aborted now generators s = (s, generators)

  module _ (bounded : InRange random) (now : ℕ) (generators : Generators Generator)
      (s : TcpSession) where
    -- `f` was done with some jitter of the range, and the generator of the thread `q` was only used if that is
    -- the thread which runs the strand.
    abbrev pub Draws :
        (ℕ → TcpSession → TcpSession) → ℕ → TcpSession × Generators Generator → Type 0
    Draws f q p =
        (jitter : ℕ) × (jitter ≤ max_jitter)
        × (p.0 ≡ f jitter s)
        × ((q ≡ thread) ⊎ (p.1 q ≡ generators q))

    others : (q : ℕ) → (q ≡ thread) ⊎ ((hb_jitter generators).1 q ≡ generators q)
    unfolding hb_jitter
    others q = elim (Bool-cases (q == thread)) [
      | inl same ↦ inl ((==_iff q thread).0 same)
      | inr other ↦ inr (
          ap (λ b. if b then (random.draw 0 max_jitter (generators thread)).1 else generators q)
            other)
    ]

    beat-Draws : (q : ℕ) → Draws (beat now) q (draw_beat now generators s)
    unfolding draw_beat hb_jitter
    beat-Draws q =
        if_cases (Draws (beat now) q) s.is_closed _ _ (λ e. (0, omega arith, refl, inr refl))
          (λ e. (
            (hb_jitter generators).0,
            bounded.below 0 max_jitter (generators thread) (omega arith),
            refl,
            others q,
          ))

    -- Both waits end in one of three ways, by the tests.
    chosen :
        (q : ℕ) (aborted hard soft : Bool)
        → Draws
            (λ jitter t.
              if aborted
              then beat now jitter t
              else if hard
              then expire t
              else if soft
              then probe now t
              else beat now jitter t)
            q
            (if aborted
              then draw_beat now generators s
              else if hard
              then (expire s, generators)
              else if soft
              then (probe now s, generators)
              else draw_beat now generators s)
    chosen q true hard soft = beat-Draws q
    chosen q false true soft = (0, omega arith, refl, inr refl)
    chosen q false false true = (0, omega arith, refl, inr refl)
    chosen q false false false = beat-Draws q

    interval-Draws :
        (aborted : Bool) (q : ℕ)
        → Draws (on_interval aborted now) q (draw_interval aborted now generators s)
    unfolding on_interval draw_interval
    interval-Draws aborted q =
        chosen q aborted (leb hard_idle (now - s.last_rx)) (leb soft_idle (now - s.last_rx))

    grace-Draws :
        (aborted : Bool) (q : ℕ)
        → Draws (on_grace aborted now) q (draw_grace aborted now generators s)
    unfolding on_grace draw_grace
    grace-Draws aborted q = chosen q aborted (leb hard_idle (now - s.last_rx)) false

    module _ (e : BigEndian) {World : Type 0} (handlers : List (Handler World)) (q : ℕ) where
      -- A step of the session, after which no other thread's generator has changed.
      abbrev pub Drawn : TcpSession × Generators Generator → Type 0
      Drawn p = Step e handlers s p.0 × ((q ≡ thread) ⊎ (p.1 q ≡ generators q))

      drawn :
          (f : ℕ → TcpSession → TcpSession) (p : TcpSession × Generators Generator)
          → Draws f q p
          → ((jitter : ℕ) → jitter ≤ max_jitter → Step e handlers s (f jitter s))
          → Drawn p
      drawn f p (jitter, small, same, kept) step =
          (subst (Step e handlers s) (sym same) (step jitter small), kept)

      by_place :
          (aborted : Bool) (b : Beating)
          → s.beating ≡ b
          → b ≢ stopped
          → Drawn (heartbeat_at b aborted now generators s)
      unfolding heartbeat_at
      by_place aborted unstarted h goes =
          drawn (beat now) (draw_beat now generators s) (beat-Draws q)
            (λ jitter small. starts_beating now jitter h small)
      by_place aborted sleeping h goes =
          drawn (on_interval aborted now) (draw_interval aborted now generators s)
            (interval-Draws aborted q) (λ jitter small. wakes aborted now jitter h small)
      by_place aborted in_grace h goes =
          drawn (on_grace aborted now) (draw_grace aborted now generators s) (grace-Draws aborted q)
            (λ jitter small. wakes_from_grace aborted now jitter h small)
      by_place aborted stopped h goes = absurd (goes refl)

  -- If the distribution stays in its range, each function of a heartbeat that has not stopped, from the start
  -- or a wait to the next wait or the end, is a step of the session when it draws its jitter from the
  -- generator of the thread that runs it; and no other thread's generator changes.
  pub heartbeat_at-Drawn :
      (bounded : InRange random) (now : ℕ) (generators : Generators Generator) (s : TcpSession)
      (e : BigEndian) {World : Type 0} (handlers : List (Handler World)) (q : ℕ) (aborted : Bool)
      → s.beating ≢ stopped
      → Drawn bounded now generators s e handlers q
          (heartbeat_at s.beating aborted now generators s)
  heartbeat_at-Drawn bounded now generators s e handlers q aborted goes =
      by_place bounded now generators s e handlers q aborted s.beating refl goes
