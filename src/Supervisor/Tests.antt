-- ===== src/Supervisor/Tests.antt =====
-- The supervisor's theorems at concrete inputs.
use holypipe.Prelude.{◌≡◌, List, [], ◌∷◌}
use holypipe.Supervisor.{start, stop, exit, is_running}
use holypipe.Supervisor.Registry.{count}
use holypipe.Supervisor.Workers.{Move, starts, pops, exits, run, step, begin, left, count-run}

-- A start between a stop and the exit of its thread.
abbrev moves : List Move
moves = starts "a" ∷ starts "b" ∷ pops "a" ∷ starts "a" ∷ pops "b" ∷ exits 0 ∷ []

count-run_example : count "a" (left (run begin moves).told (run begin moves).supervisor.live) ≡ 1
unfolding is_running start stop exit run step left
count-run_example = count-run moves "a"
