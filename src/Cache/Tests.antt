-- ===== src/Cache/Tests.antt =====
-- The cache's theorems at concrete inputs.
use holypipe.Prelude.{ℕ, ◌≡◌, none, some, List, [], ◌∷◌, arith}
use holypipe.Cache.{lifetime, init, get}
use holypipe.Cache.History.{
  Call, gets, sets, invalidates_prefix, run, step, spec_run, spec_step, get-run,
}

abbrev calls : List (ℕ × Call ℕ)
calls =
    (1, sets "src" (some 7) none)
    ∷ (2, sets "srv" (some 8) (some 1))
    ∷ (4, gets "srv")
    ∷ (5, invalidates_prefix "srv")
    ∷ []

get-run_example : (get "src" 300 (run (init 300) calls)).0 ≡ some 7
unfolding run step spec_run spec_step lifetime
get-run_example = get-run 300 0 300 calls "src" (omega arith)
