-- ===== src/Mcp/Syncs.antt =====
-- `run_sync` and `resync_connection` of the tools, which repeat the steps of the handlers and run
-- the job themselves.
use holypipe.Mcp.{
  Option, connector, connection, streams, crashed, done, refused, synced, raised, replied, Returned,
  Reply,
}
use holypipe.Models.{Connection}
use holypipe.Api.{BackgroundTask, find_connection, with_connection, Api}
use holypipe.Prelude.{
  Option, String, Bool, true, false, not, none, some, List, any, contains, str_eq, if◌then◌else◌,
}
use holypipe.Api.Operate.{
  is_running_status, valid_names, targets_of, cursors_of, pop_all, sorted_names, is_given,
}
use holypipe.Supervisor
use holypipe.Sync

-- `run_batch_sync`, as a tool calls it: the connection's row is that which the run leaves, and the
-- ConnectorError of a connection that is not enabled passes through.
abbrev ran : BackgroundTask → Api → Option Sync.Outcome → Reply Returned × Api
ran job api none = (raised crashed, api)
ran job api (some o) = (replied (synced job), with_connection o.connection api)

unfoldable pub run_job : Sync.Env → BackgroundTask → Api → Reply Returned × Api
run_job env job api = elim (find_connection job.connection_id api.connections) [
  | none ↦ (raised crashed, api)
  | some conn ↦ ran job api (Sync.run_batch_sync env job.only_streams conn)
]

unfoldable pub run_sync : Sync.Env → String → Api → Reply Returned × Api
unfolding run_job
run_sync env id api = elim (find_connection id api.connections) [
  | none ↦ (raised refused, api)
  | some conn ↦
      if str_eq conn.mode "cdc"
      then (raised refused, api)
      else if is_running_status conn.status
      then (raised refused, api)
      else run_job env (record { connection_id = id; trigger = "mcp"; only_streams = none }) api
]

-- A tool's last step: the job that its reply speaks of.
unfoldable pub run_synced : Sync.Env → Reply Returned × Api → Reply Returned × Api
unfolding run_job
run_synced env (raised r, api) = (raised r, api)
run_synced env (replied (connector row), api) = (replied (connector row), api)
run_synced env (replied (connection conn), api) = (replied (connection conn), api)
run_synced env (replied (streams ss), api) = (replied (streams ss), api)
run_synced env (replied done, api) = (replied done, api)
run_synced env (replied (synced job), api) = run_job env job api

-- `resync_connection`, which repeats the handler's steps, up to the call of `run_batch_sync`; the
-- reply names the job that `run_synced` then runs.
unfoldable pub resync_tool_cdc : String → Bool → Connection → Api → Reply Returned × Api
unfolding Supervisor.stop Supervisor.start
resync_tool_cdc id joined conn api =
    let state = record conn.state { snapshot_done = false } in
    let committed = with_connection (record conn { state = state; enabled = true }) api in
    let stopped = Supervisor.stop id joined committed.supervisor in
    (replied done, record committed { supervisor = Supervisor.start id stopped })

unfoldable pub resync_tool_batch : String → List String → Connection → Api → Reply Returned × Api
unfolding sorted_names pop_all
resync_tool_batch id names conn api =
    let targets = targets_of names conn in
    let cursors = pop_all targets (cursors_of conn.state.cursors) in
    let state = record conn.state { cursors = some cursors } in
    let job : BackgroundTask = record {
      connection_id = id;
      trigger = "resync";
      only_streams = some targets;
    } in
    (replied (synced job), with_connection (record conn { state = state; enabled = true }) api)

unfoldable pub resync_tool_found :
    String → List String → Bool → Connection → Api → Reply Returned × Api
unfolding resync_tool_cdc resync_tool_batch
resync_tool_found id names joined conn api =
    if any (λ name. not (contains (valid_names conn) name)) names
    then (raised refused, api)
    else if str_eq conn.mode "cdc"
    then if is_given names then (raised refused, api) else resync_tool_cdc id joined conn api
    else if is_running_status conn.status
    then (raised refused, api)
    else resync_tool_batch id names conn api

unfoldable pub resync_tool : String → List String → Bool → Api → Reply Returned × Api
unfolding resync_tool_found
resync_tool id names joined api = elim (find_connection id api.connections) [
  | none ↦ (raised refused, api)
  | some conn ↦ resync_tool_found id names joined conn api
]
