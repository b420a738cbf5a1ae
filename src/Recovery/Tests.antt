-- ===== src/Recovery/Tests.antt =====
-- The theorem on recovery at a concrete input.
use holypipe.Prelude.{◌≡◌, true, none, [], ◌∷◌, all, map, List}
use holypipe.Models.{SyncRun, running, success}
use holypipe.Recovery.{recover_orphaned_state}
use holypipe.Recovery.Restart.{run_after, is_over_run, recover_orphaned_state-calm}

abbrev runs : List SyncRun
runs =
    record {
      id = "r1";
      connection_id = "c1";
      trigger = "schedule";
      status = running;
      finished_at = none;
      records_read = 0;
      records_written = 0;
      records_deleted = 0;
      error = none;
    }
    ∷ record {
      id = "r2";
      connection_id = "c1";
      trigger = "manual";
      status = success;
      finished_at = none;
      records_read = 3;
      records_written = 3;
      records_deleted = 0;
      error = none;
    }
    ∷ []

recover_orphaned_state-calm_example :
    let s = recover_orphaned_state 7 (runs, []) in
    (s ≡ (map (run_after 7) runs, []))
    × (all is_over_run s.0 ≡ true)
    × (true ≡ true)
    × (recover_orphaned_state 9 s ≡ s)
unfolding recover_orphaned_state
recover_orphaned_state-calm_example = recover_orphaned_state-calm 7 9 runs []
