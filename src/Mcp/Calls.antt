-- ===== src/Mcp/Calls.antt =====
-- The calls of tools, and the request that makes one.
use holypipe.Mcp.Syncs.{resync_tool, run_sync, run_synced}
use holypipe.Mcp.{
  connector, connection, streams, done, missing_permission, unauthenticated, raised, connector_in,
  from_result, ConnectionArgs, Returned, ConnectorArgs, Reply, World, update_connection,
}
use holypipe.Auth.{Store, Hashes, AuthUser, has, load_auth_user_from_api_token}
use holypipe.Api.{Api}
use holypipe.Prelude.{ℕ, String, Bool, not, Option, none, some, List, if◌then◌else◌}
use holypipe.Auth.{bearer}
use holypipe.Api.Operate.{delete_connection, start_cdc, stop_cdc}
use holypipe.Api.Connectors.{
  create_source, update_source, delete_source, create_destination, update_destination,
  delete_destination, discover_source,
}
use holypipe.Api.Create.{ConnectionIn, create_connection}

-- The arguments of `create_connection` make a body without a group.
abbrev ungrouped : ConnectionIn → ConnectionIn
ungrouped body = record body { group_id = none }

-- A call of a tool.
pub data ToolCall : Type 0 where
  creates_source creates_destination : ConnectorArgs → ToolCall
  updates_source updates_destination : String → ConnectorArgs → ToolCall
  deletes_source deletes_destination : String → ToolCall
  discovers_source : String → Bool → ToolCall
  creates_connection : ConnectionIn → ToolCall
  updates_connection : String → ConnectionArgs → ToolCall
  deletes_connection : String → ToolCall
  runs_sync : String → ToolCall
  resyncs_connection : String → List String → ToolCall
  starts_cdc stops_cdc : String → ToolCall

-- The argument of `_tool` above each tool.
abbrev pub permission_of : ToolCall → String
permission_of (creates_source args) = "sources.manage"
permission_of (creates_destination args) = "destinations.manage"
permission_of (updates_source id args) = "sources.manage"
permission_of (updates_destination id args) = "destinations.manage"
permission_of (deletes_source id) = "sources.manage"
permission_of (deletes_destination id) = "destinations.manage"
permission_of (discovers_source id refresh) = "sources.view"
permission_of (creates_connection body) = "connections.manage"
permission_of (updates_connection id args) = "connections.manage"
permission_of (deletes_connection id) = "connections.manage"
permission_of (runs_sync id) = "connections.operate"
permission_of (resyncs_connection id names) = "connections.operate"
permission_of (starts_cdc id) = "connections.operate"
permission_of (stops_cdc id) = "connections.operate"

-- The tools that hand over to a handler.
abbrev create_source_tool : World → ConnectorArgs → Api → Reply Returned × Api
create_source_tool w args api =
    from_result connector (create_source w.urls w.fresh_id (connector_in args) api)

abbrev update_source_tool : World → String → ConnectorArgs → Api → Reply Returned × Api
update_source_tool w id args api =
    from_result connector (update_source w.urls id (connector_in args) api)

abbrev delete_source_tool : String → Api → Reply Returned × Api
delete_source_tool id api = from_result (λ b. done) (delete_source id api)

abbrev discover_source_tool : World → String → Bool → Api → Reply Returned × Api
discover_source_tool w id refresh api =
    from_result streams (discover_source id refresh w.cache_now w.cache_later w.answer api)

abbrev create_destination_tool : World → ConnectorArgs → Api → Reply Returned × Api
create_destination_tool w args api =
    from_result connector (create_destination w.urls w.fresh_id (connector_in args) api)

abbrev update_destination_tool : World → String → ConnectorArgs → Api → Reply Returned × Api
update_destination_tool w id args api =
    from_result connector (update_destination w.urls id (connector_in args) api)

abbrev delete_destination_tool : String → Api → Reply Returned × Api
delete_destination_tool id api = from_result (λ b. done) (delete_destination id api)

abbrev create_connection_tool : World → ConnectionIn → Api → Reply Returned × Api
create_connection_tool w body api =
    from_result connection (create_connection w.next_cron w.fresh_id w.now (ungrouped body) api)

abbrev delete_connection_tool : World → String → Api → Reply Returned × Api
delete_connection_tool w id api = from_result (λ b. done) (delete_connection id w.joined api)

abbrev start_cdc_tool : String → Api → Reply Returned × Api
start_cdc_tool id api = from_result (λ b. done) (start_cdc id api)

abbrev stop_cdc_tool : World → String → Api → Reply Returned × Api
stop_cdc_tool w id api = from_result (λ b. done) (stop_cdc id w.joined w.session api)

-- The dispatch of the server's library.
unfoldable pub run_tool : World → ToolCall → Api → Reply Returned × Api
unfolding update_connection run_sync resync_tool run_synced
run_tool w (creates_source args) api = create_source_tool w args api
run_tool w (creates_destination args) api = create_destination_tool w args api
run_tool w (updates_source id args) api = update_source_tool w id args api
run_tool w (updates_destination id args) api = update_destination_tool w id args api
run_tool w (deletes_source id) api = delete_source_tool id api
run_tool w (deletes_destination id) api = delete_destination_tool id api
run_tool w (discovers_source id refresh) api = discover_source_tool w id refresh api
run_tool w (creates_connection body) api = create_connection_tool w body api
run_tool w (updates_connection id args) api = update_connection w id args api
run_tool w (deletes_connection id) api = delete_connection_tool w id api
run_tool w (runs_sync id) api = run_sync w.sync_env id api
run_tool w (resyncs_connection id names) api =
    run_synced w.sync_env (resync_tool id names w.joined api)
run_tool w (starts_cdc id) api = start_cdc_tool id api
run_tool w (stops_cdc id) api = stop_cdc_tool w id api

-- `_tool`, around a body; the caller is that of the context variable.
unfoldable pub tool :
    String → Option AuthUser → (Api → Reply Returned × Api) → Api → Reply Returned × Api
unfolding has
tool permission none body api = (raised unauthenticated, api)
tool permission (some user) body api =
    if not (has user permission) then (raised (missing_permission permission), api) else body api

pub data Response : Type 0 where
  status_401 : Response
  answered : Reply Returned → Response

abbrev pub as_user : World → ToolCall → Option AuthUser → Api → Response × Api
as_user w call none api = (status_401, api)
as_user w call (some user) api =
    let (reply, after) = tool (permission_of call) (some user) (run_tool w call) api in
    (answered reply, after)

-- `asgi_app`, of an HTTP request that calls a tool; looking the token up touches its row.
unfoldable pub asgi_app :
    Hashes → Option String → ℕ → World → ToolCall → Store → Api → Response × Store × Api
unfolding tool load_auth_user_from_api_token
asgi_app h header now w call store api = elim (bearer header) [
  | none ↦ (status_401, store, api)
  | some token ↦
      let (user, touched) = load_auth_user_from_api_token h token now store in
      let (response, after) = as_user w call user api in (response, touched, after)
]
