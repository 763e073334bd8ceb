-- ===== src/App/Main.antt =====
-- Main.cpp: `main`.
use Prim.Native.String.{String}
use zem.Base.{ℕ, Option, none, some, List}
use zem.App.Env.{default_config}
use zem.App.Context.{
  LibraryCall, Thrown, system_error, soci_error, other_error, Host, Made, made, threw, make_app,
  run_app, destroy_app, destroy_members,
}

-- The lines of the three `catch` clauses.
pub data Report : Type 0 where
  error_report db_error_report unknown_error_report : Report

-- The first clause that fits.
unfoldable pub caught : Thrown → Report
caught system_error = error_report
caught soci_error = db_error_report
caught other_error = unknown_error_report

module _ {World : Type 0} where
  -- The block of `try`: what it throws, and what was asked of the libraries. A context that was made is
  -- run, and destroyed at the end of its scope, also if the run throws. The members of one that was
  -- not made are destroyed.
  unfoldable pub whole_life : Host World → Made World → Option Thrown × List LibraryCall
  whole_life host (made app) = let (s, thrown) = run_app host app in (thrown, (destroy_app s).calls)
  whole_life host (threw x app) = (some x, (destroy_members app).calls)

  -- The exit status, what was reported, what was asked of the libraries, and the world.
  unfoldable pub main_program :
      (String → Option (List ℕ))
      → (List ℕ → ℕ × ℕ)
      → Host World
      → World
      → ℕ × Option Report × List LibraryCall × World
  unfolding whole_life caught
  main_program getenv strtoul host w =
      let (app, w') = make_app host (default_config getenv strtoul) w in
      let (thrown, calls) = whole_life host app in
      let report : Option Report = elim thrown [ none ↦ none | some x ↦ some (caught x) ] in
      (0, report, calls, w')
