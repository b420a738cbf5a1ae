-- ===== src/Logs/Tests.antt =====
-- The theorem on the log's pruning at concrete inputs.
use holypipe.Logs.{get_logs, log, Logs, prune_logs}
use holypipe.Prelude.{◌≡◌, true, none, some, [], ◌++◌, arith}
use holypipe.Prelude.{take, drop}
use holypipe.Logs.Pruning.{prune_logs-get_logs, begins, logs, Reached}

abbrev first_entry : Logs
first_entry =
    log true true (some "c1") none "INFO" "started"
      (record { rows = []; next_id = 1; published = [] })

abbrev two_entries : Logs
two_entries = log true true (some "c1") none "INFO" "done" first_entry

two_entries-Reached : Reached 2000 two_entries
two_entries-Reached =
    logs true true (some "c1") none "INFO" "done"
      (logs true true (some "c1") none "INFO" "started" begins)

prune_logs-get_logs_example :
    let pruned = prune_logs 2000 (some 1) true two_entries in
    (pruned.rows ≡ take 1 two_entries.rows ++ drop 5000 (drop 1 two_entries.rows))
    × (get_logs none 1 pruned ≡ get_logs none 1 two_entries)
prune_logs-get_logs_example =
    prune_logs-get_logs 2000 (some 1) 1 two_entries two_entries-Reached (omega arith)
