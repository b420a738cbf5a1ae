-- ===== src/Recovery.antt =====
-- `recover_orphaned_state` of engine/recovery.py, over the tables of runs and of connections.
mod Restart
mod Tests
use holypipe.Prelude.{ℕ, String, Bool, true, false, some, none, List, map, if◌then◌else◌}
use holypipe.Models.{
  Status, idle, running, streaming, error, Connection, RunStatus, success, failed, cancelled,
  SyncRun,
}
use holypipe.Models

-- The filters of the two queries.
abbrev pub is_stuck_run : RunStatus → Bool
is_stuck_run RunStatus.running = true
is_stuck_run RunStatus.success = false
is_stuck_run RunStatus.failed = false
is_stuck_run RunStatus.cancelled = false

abbrev pub is_stuck : Status → Bool
is_stuck Status.idle = false
is_stuck Status.running = true
is_stuck Status.streaming = true
is_stuck Status.error = false

pub recover_run : ℕ → SyncRun → SyncRun
recover_run now run =
    if is_stuck_run run.status
    then record run {
      status = failed;
      finished_at = some now;
      error = some "Interrupted — HolyPipe restarted while this run was in progress";
    }
    else run

pub recover_connection : Connection → Connection
recover_connection conn =
    if is_stuck conn.status then record conn { status = idle; status_detail = none } else conn

pub recover_orphaned_state : ℕ → List SyncRun × List Connection → List SyncRun × List Connection
unfolding recover_run recover_connection
recover_orphaned_state now (runs, conns) =
    (map (recover_run now) runs, map recover_connection conns)
