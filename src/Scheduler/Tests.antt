-- ===== src/Scheduler/Tests.antt =====
-- The scheduler's theorems at concrete inputs.
use holypipe.Prelude.{
  inr, ℕ, ◌≡◌, refl, String, true, false, Option, none, some, List, [], ◌∷◌, arith, inl,
}
use holypipe.Prelude.Int.{pos}
use holypipe.Dict
use holypipe.Supervisor
use holypipe.Supervisor.{running_ids}
use holypipe.Models.{Connection, idle}
use holypipe.Scheduler.{Scheduler, collect, tick}
use holypipe.Scheduler.Jobs.{Move, ticks, finishes, run, IsExclusive, run-IsExclusive}
use holypipe.Scheduler.Restarts.{tick_stuck}

abbrev conn : String → String → Connection
conn id mode = record {
  id = id;
  name = id;
  source_id = "s";
  destination_id = "d";
  mode = mode;
  schedule_type = "interval";
  interval_seconds = pos 60;
  cron_expression = none;
  enabled = true;
  destination_namespace = none;
  table_prefix = "";
  group_id = none;
  streams = [];
  state = record { cursors = none; snapshot_done = false; position = [] };
  status = idle;
  status_detail = none;
  last_run_at = none;
  next_run_at = none;
}

abbrev no_cron : String → ℕ → Option ℕ
no_cron expression base = none

abbrev fresh : Scheduler
fresh = record {
  backoffs = [];
  inflight = [];
  jobs = [];
  supervisor = Supervisor.init;
  last_prune = 0;
  prunes = 0;
}

abbrev rows : List Connection
rows = conn "a" "batch" ∷ conn "b" "cdc" ∷ conn "c" "batch" ∷ []

abbrev moves : List Move
moves = ticks (λ cid. true) 10 10 10 rows ∷ finishes "a" ∷ ticks (λ cid. true) 20 20 20 rows ∷ []

run-IsExclusive_example : IsExclusive (run no_cron fresh moves)
run-IsExclusive_example =
    run-IsExclusive no_cron fresh moves
      ((refl, (refl, (refl, tt))), ((refl, (refl, (refl, tt))), tt))
      (record { same = refl; distinct = tt })

abbrev failing : Scheduler
failing = record fresh { backoffs = ("b", record { fails = 1024; next_attempt = 5 }) ∷ [] }

tick_stuck_example :
    let (rows', s', passed) = tick no_cron (λ cid. true) 10 10 10 rows failing in
    (passed ≡ false)
    × (rows' ≡ (collect no_cron 10 rows).0)
    × (s'.jobs ≡ failing.jobs)
    × (Dict.get "b" s'.backoffs ≡ some (record { fails = 1024; next_attempt = 5 }))
unfolding running_ids
tick_stuck_example =
    tick_stuck no_cron (λ cid. true) 10 10 10 rows failing (conn "b" "cdc")
      (record { fails = 1024; next_attempt = 5 }) (inr (inl refl)) refl refl refl refl (omega arith)
      (omega arith)
