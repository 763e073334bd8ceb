-- ===== src/Server/Stopping.antt =====
-- What `Stop` leaves behind.
use mathlib.Core.List.{map}
use zem.Base.{
  ℕ, zero, suc, ◌≡◌, refl, sym, ap, subst, ◌⊎◌, inl, inr, Bool, true, false, ◌||◌, List, [], ◌∷◌,
  ◌++◌, All, if◌then◌else◌, if_cases, All-append, Bool-cases,
}
use zem.Server.Acceptor.{
  Entry, Server, Accepted, refused, threw_before, threw_after, accepted, make_server, run,
  start_acceptor, stop, shut, run_stop, started_entry, lost_entry, on_outcome, on_accept, change_at,
  release, erase,
}
use zem.Server.Steps.{
  Step, runs, starts, accepts, retries, stops, runs_stop, releases, erases, here, after, Reach,
}

-- A session that lives is in `m_sessions`, or `Stop` has called its `Shutdown`.
abbrev pub Kept : Entry → Type 0
Kept en = (en.listed ≡ true) ⊎ (en.alive ≡ false) ⊎ (en.asked ≡ true)

abbrev pub Unlisted : Entry → Type 0
Unlisted en = en.listed ≡ false

-- Not stopped; stopped, with the function of `Stop` on the strand; and after that has run.
abbrev pub Serving : Bool → Bool → Bool → Bool → Type 0
Serving stopped stopping guarded opened =
    (stopped ≡ false) × (stopping ≡ false) × (guarded ≡ true) × (opened ≡ true)

abbrev pub Closing : Bool → Bool → Bool → Type 0
Closing stopped stopping guarded = (stopped ≡ true) × (stopping ≡ true) × (guarded ≡ true)

abbrev pub Closed : Bool → Bool → Bool → Bool → List Entry → Type 0
Closed stopped stopping guarded opened ens =
    (stopped ≡ true) × (stopping ≡ false) × (guarded ≡ false) × (opened ≡ false) × All Unlisted ens

abbrev pub Phase : Bool → Bool → Bool → Bool → List Entry → Type 0
Phase stopped stopping guarded opened ens =
    Serving stopped stopping guarded opened
    ⊎ Closing stopped stopping guarded
    ⊎ Closed stopped stopping guarded opened ens

pub record StopInv (s : Server) : Type 0 where
  pub kept : All Kept s.sessions
  pub phase : Phase s.is_stopped s.stopping s.guarded s.acceptor_open s.sessions

module _ (P : Entry → Type 0) (f : Entry → Entry) (keeps : (en : Entry) → P en → P (f en)) where
  All-change_at : (n : ℕ) (ens : List Entry) → All P ens → All P (change_at n f ens)
  unfolding change_at
  All-change_at n [] v = v
  All-change_at zero (en ∷ ens) v = (keeps en v.0, v.1)
  All-change_at (suc n) (en ∷ ens) v = (v.0, All-change_at n ens v.1)

or_true : (b : Bool) → (b || true) ≡ true
or_true true = refl
or_true false = refl

shut-Kept : (en : Entry) → Kept en → Kept (shut en)
unfolding shut
shut-Kept en (inl l) = elim (Bool-cases en.alive) [
  | inl a ↦ inr (inr (rw (l, a) (or_true en.asked)))
  | inr a ↦ inr (inl a)
]
shut-Kept en (inr (inl a)) = inr (inl a)
shut-Kept en (inr (inr h)) = inr (inr (rw h))

All-map-shut :
    (ens : List Entry) → All Kept ens → All Kept (map shut ens) × All Unlisted (map shut ens)
unfolding shut
All-map-shut [] v = (tt, tt)
All-map-shut (en ∷ ens) v = let (k, u) = All-map-shut ens v.1 in ((shut-Kept en v.0, k), (refl, u))

release-Kept : (en : Entry) → Kept en → Kept (release en)
unfolding release
release-Kept en v = inr (inl refl)

erase-Kept : (en : Entry) → Kept en → Kept (erase en)
unfolding erase
erase-Kept en v = elim (Bool-cases en.alive) [
  | inl a ↦ subst Kept (sym (ap (λ b. if b then en else record en { listed = false }) a)) v
  | inr a ↦
      subst Kept (sym (ap (λ b. if b then en else record en { listed = false }) a)) (inr (inl a))
]

erase-Unlisted : (en : Entry) → Unlisted en → Unlisted (erase en)
unfolding erase
erase-Unlisted en u = if_cases Unlisted en.alive _ _ (λ a. u) (λ a. refl)

release-Unlisted : (en : Entry) → Unlisted en → Unlisted (release en)
unfolding release
release-Unlisted en u = u

-- A change of sessions that keeps both predicates keeps the phase.
Phase-change :
    {a b c d : Bool} (f : Entry → Entry)
    → ((en : Entry) → Unlisted en → Unlisted (f en))
    → (n : ℕ) (ens : List Entry) → Phase a b c d ens
    → Phase a b c d (change_at n f ens)
Phase-change f keeps n ens (inl v) = inl v
Phase-change f keeps n ens (inr (inl v)) = inr (inl v)
Phase-change f keeps n ens (inr (inr (a, b, c, d, u))) =
    inr (inr (a, b, c, d, All-change_at Unlisted f keeps n ens u))

stop-StopInv : (s : Server) → StopInv s → StopInv (stop s)
unfolding stop
stop-StopInv s v =
    if_cases StopInv s.is_stopped _ _ (λ e. v)
      (λ e. record {
        kept = v.kept;
        phase = elim v.phase [
          | inl h ↦ inr (inl (refl, refl, h.2))
          | inr (inl h) ↦ cc
          | inr (inr h) ↦ cc
        ];
      })

start_acceptor-StopInv : (s : Server) → StopInv s → StopInv (start_acceptor s)
unfolding start_acceptor
start_acceptor-StopInv s v = record { kept = v.kept; phase = v.phase }

-- An open server may put a session into `m_sessions`.
added-StopInv :
    (s : Server) (en : Entry)
    → s.is_stopped ≡ false
    → Kept en
    → StopInv s
    → StopInv (record s { sessions = s.sessions ++ en ∷ [] })
added-StopInv s en e k v = record {
  kept = All-append Kept s.sessions (en ∷ []) v.kept (k, tt);
  phase = elim v.phase [ inl h ↦ inl h | inr (inl h) ↦ inr (inl h) | inr (inr h) ↦ cc ];
}

on_outcome-StopInv :
    (outcome : Accepted) (meanwhile : Bool) (s : Server)
    → s.is_stopped ≡ false
    → StopInv s
    → StopInv (on_outcome outcome meanwhile s)
unfolding on_outcome
on_outcome-StopInv refused meanwhile s e v = record { kept = v.kept; phase = v.phase }
on_outcome-StopInv threw_before meanwhile s e v = record { kept = v.kept; phase = v.phase }
on_outcome-StopInv threw_after meanwhile s e v =
    let w = added-StopInv s lost_entry e (inl refl) v in record { kept = w.kept; phase = w.phase }
on_outcome-StopInv accepted meanwhile s e v =
    let added : Server = record s { sessions = s.sessions ++ started_entry ∷ [] } in
    let w : StopInv added = added-StopInv s started_entry e (inl refl) v in
    if_cases StopInv meanwhile (start_acceptor (stop added)) (start_acceptor added)
      (λ h. start_acceptor-StopInv (stop added) (stop-StopInv added w))
      (λ h. start_acceptor-StopInv added w)

on_accept-StopInv :
    (outcome : Accepted) (meanwhile : Bool) (s : Server)
    → StopInv s
    → StopInv (on_accept outcome meanwhile s)
unfolding on_accept
on_accept-StopInv outcome meanwhile s v =
    if_cases StopInv s.is_stopped _ _
      (λ e. record {
        kept = v.kept;
        phase = elim v.phase [
          | inl h ↦ cc
          | inr (inl h) ↦ inr (inl h)
          | inr (inr h) ↦ inr (inr (h.0, h.1, h.2, refl, h.4))
        ];
      })
      (λ e. on_outcome-StopInv outcome meanwhile s e v)

run_stop-StopInv : (s : Server) → s.stopping ≡ true → StopInv s → StopInv (run_stop s)
unfolding run_stop
run_stop-StopInv s h v = record {
  kept = (All-map-shut s.sessions v.kept).0;
  phase = elim v.phase [
    | inl p ↦ cc
    | inr (inl p) ↦ inr (inr (p.0, refl, refl, refl, (All-map-shut s.sessions v.kept).1))
    | inr (inr p) ↦ cc
  ];
}

pub Step-StopInv : {s t : Server} → Step s t → StopInv s → StopInv t
unfolding run
Step-StopInv (runs h) v = record { kept = v.kept; phase = v.phase }
Step-StopInv {s} (starts h) v = start_acceptor-StopInv s v
Step-StopInv {s} (accepts outcome meanwhile h) v = on_accept-StopInv outcome meanwhile s v
Step-StopInv {s} (retries h) v = start_acceptor-StopInv s v
Step-StopInv {s} stops v = stop-StopInv s v
Step-StopInv {s} (runs_stop h) v = run_stop-StopInv s h v
Step-StopInv {s} (releases n) v = record {
  kept = All-change_at Kept release release-Kept n s.sessions v.kept;
  phase = Phase-change release release-Unlisted n s.sessions v.phase;
}
Step-StopInv {s} (erases n) v = record {
  kept = All-change_at Kept erase erase-Kept n s.sessions v.kept;
  phase = Phase-change erase erase-Unlisted n s.sessions v.phase;
}

-- In every state that a server comes to, each session that still lives is in `m_sessions` or was asked
-- to shut down by `Stop`; and the server serves with an open acceptor, or is stopped with the function of
-- `Stop` on the strand, or has closed its acceptor, emptied `m_sessions` and released its threads.
pub Reach-StopInv :
    (concurrency port size : ℕ) {s : Server} → Reach concurrency port size s → StopInv s
unfolding make_server
Reach-StopInv concurrency port size here = record {
  kept = tt;
  phase = inl (refl, refl, refl, refl);
}
Reach-StopInv concurrency port size (after r st) =
    Step-StopInv st (Reach-StopInv concurrency port size r)

asked_if_Unlisted :
    (ens : List Entry)
    → All Kept ens
    → All Unlisted ens
    → All (λ en. (en.alive ≡ false) ⊎ (en.asked ≡ true)) ens
asked_if_Unlisted [] k u = tt
asked_if_Unlisted (en ∷ ens) (inl l, k) (u, us) = cc
asked_if_Unlisted (en ∷ ens) (inr h, k) (u, us) = (h, asked_if_Unlisted ens k us)

-- Once `Stop` has released the threads of a server, every session that it ever accepted is gone or
-- was asked to shut down, also one that was accepted while `Stop` was called.
pub stopped-asked :
    (concurrency port size : ℕ) {s : Server}
    → Reach concurrency port size s
    → s.guarded ≡ false
    → All (λ en. (en.alive ≡ false) ⊎ (en.asked ≡ true)) s.sessions
stopped-asked concurrency port size {s} r h =
    let v = Reach-StopInv concurrency port size r in
    elim v.phase [
      | inl p ↦ cc
      | inr (inl p) ↦ cc
      | inr (inr p) ↦ asked_if_Unlisted s.sessions v.kept p.4
    ]
