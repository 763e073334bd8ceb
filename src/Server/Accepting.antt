-- ===== src/Server/Accepting.antt =====
-- Whether a server goes on accepting.
use zem.Base.{◌≡◌, refl, Bool, false, if_cases}
use zem.Server.Acceptor.{Server, threw_before, for_nothing, stop, run_stop, on_outcome, on_accept}
use zem.Server.Steps.{
  Step, runs, starts, accepts, retries, stops, runs_stop, releases, erases, here, after, Later,
}

Step-for_nothing : {s t : Server} → Step s t → s.waiting ≡ for_nothing → t.waiting ≡ for_nothing
unfolding stop run_stop
Step-for_nothing (runs h) w = cc
Step-for_nothing (starts h) w = cc
Step-for_nothing (accepts outcome meanwhile h) w = cc
Step-for_nothing (retries h) w = cc
Step-for_nothing {s} stops w =
    if_cases (λ (t : Server). t.waiting ≡ for_nothing) s.is_stopped _ _ (λ e. w) (λ e. w)
Step-for_nothing (runs_stop h) w = w
Step-for_nothing (releases n) w = w
Step-for_nothing (erases n) w = w

Later-for_nothing : {s t : Server} → Later s t → s.waiting ≡ for_nothing → t.waiting ≡ for_nothing
Later-for_nothing here w = w
Later-for_nothing (after l st) w = Step-for_nothing st (Later-for_nothing l w)

-- An exception in `OnAccept` before the session is listed leaves a server that is not stopped still
-- not stopped, but without an accept, then and after any further steps.
pub on_accept-threw :
    (meanwhile : Bool) (s : Server) {t : Server}
    → s.is_stopped ≡ false
    → Later (on_accept threw_before meanwhile s) t
    → ((on_accept threw_before meanwhile s).is_stopped ≡ false) × (t.waiting ≡ for_nothing)
unfolding on_accept on_outcome
on_accept-threw meanwhile s h l = (
  if_cases (λ (t : Server). t.is_stopped ≡ false) s.is_stopped _ _ (λ e. cc) (λ e. h),
  Later-for_nothing l
      (if_cases (λ (t : Server). t.waiting ≡ for_nothing) s.is_stopped _ _ (λ e. refl) (λ e. refl)),
)
