-- ===== src/Api/Tests.antt =====
-- The theorems on the API at concrete inputs.
use holypipe.Supervisor.{alive_worker}
use holypipe.Api.Discovery.{discover_source-update_source}
use holypipe.Api.Resync.{resync_connection-get}
use holypipe.Api.Workers.{stop_cdc-collect, wanted_ids}
use holypipe.Auth.{ok}
use holypipe.Prelude.Int.{pos}
use holypipe.Api.Connectors.{crashed, found, discover_source, update_source}
use holypipe.Api.Operate.{
  cursors_of, pop_all, resync_connection, sorted_names, stop_cdc, LastSession, after_session,
}
use holypipe.Models.{StreamSchema, idle, int, Connection, StreamDef}
use holypipe.Api.{find_connection, ConnectorIn, Api, ConnectorRow}
use holypipe.Prelude.{◌≡◌, refl, true, false, none, some, [], ◌∷◌, arith, contains}
use holypipe.Dict
use holypipe.Dsn.{Urls}
use holypipe.Supervisor
use holypipe.Dict.{Dict}

-- A URL library that knows no address.
abbrev no_urls : Urls
no_urls = record { urlparse = λ s. none; unquote = λ s. s; parse_qs = λ s. []; int_of = λ s. none }

abbrev shop : ConnectorRow
shop = record { id = "s1"; name = "shop"; type = "postgres"; config = [] }

abbrev orders : StreamSchema
orders = record {
  name = "public.orders";
  table = "orders";
  namespace = some "public";
  columns = record { name = "id"; type = "integer"; nullable = false; native_type = "int4" } ∷ [];
  primary_key = "id" ∷ [];
}

abbrev orders_stream : StreamDef
orders_stream = record {
  schema = orders;
  selected = true;
  sync_mode = "incremental";
  cursor_field = some "at";
  primary_key = "id" ∷ [];
  destination_table = none;
  columns = none;
}

abbrev pipeline : Connection
pipeline = record {
  id = "c1";
  name = "orders";
  source_id = "s1";
  destination_id = "d1";
  mode = "batch";
  schedule_type = "interval";
  interval_seconds = pos 60;
  cron_expression = none;
  enabled = false;
  destination_namespace = none;
  table_prefix = "";
  group_id = none;
  streams = orders_stream ∷ [];
  state = record {
    cursors = some (("public.orders", int (pos 9)) ∷ ("public.gone", int (pos 4)) ∷ []);
    snapshot_done = false;
    position = [];
  };
  status = idle;
  status_detail = none;
  last_run_at = none;
  next_run_at = none;
}

abbrev api : Api
api = record {
  sources = shop ∷ [];
  destinations = record shop { id = "d1" } ∷ [];
  connections = pipeline ∷ record pipeline { id = "c2"; name = "log"; mode = "cdc" } ∷ [];
  discovery_cache = record {
    store = ("s1", record { expires_at = 90; value = some [] }) ∷ [];
    default_ttl = 30;
  };
  supervisor = Supervisor.start "c2" Supervisor.init;
  background_tasks = [];
}

-- A session that ended by an error.
abbrev session : LastSession
session = record {
  failed = true;
  detail = some "connection lost";
  state = record { cursors = none; snapshot_done = true; position = [] };
  at = 40;
}

abbrev log_row : Connection
log_row = record pipeline { id = "c2"; name = "log"; mode = "cdc" }

stop_cdc-collect_example :
    let (result, stopped) = stop_cdc "c2" true session api in
    (result ≡ ok true)
    × (Supervisor.is_running "c2" stopped.supervisor ≡ false)
    × (alive_worker (Dict.get "c2" api.supervisor.workers) stopped.supervisor.live ≡ false)
    × (find_connection "c2" stopped.connections
        ≡ some (after_session session (record log_row { enabled = false; status = idle })))
    × (contains (wanted_ids (λ e t. none) 50 stopped.connections) "c2" ≡ false)
unfolding Supervisor.start Supervisor.is_running
stop_cdc-collect_example = stop_cdc-collect (λ e t. none) 50 "c2" session api log_row refl

resync_connection-get_example :
    let (result, synced) = resync_connection "c1" [] true api in
    let cursors = pop_all ("public.orders" ∷ []) (cursors_of pipeline.state.cursors) in
    (result ≡ ok ("public.orders" ∷ []))
    × (find_connection "c1" synced.connections
        ≡ some (record pipeline {
          enabled = true;
          state = record pipeline.state { cursors = some cursors };
        }))
    × (Dict.get "public.gone" cursors ≡ some (int (pos 4)))
    × (synced.background_tasks
        ≡ record {
          connection_id = "c1";
          trigger = "resync";
          only_streams = some ("public.orders" ∷ []);
        }
          ∷ [])
unfolding sorted_names
resync_connection-get_example =
    resync_connection-get "c1" [] true api pipeline "public.gone" refl refl refl refl

discover_source-update_source_example :
    let body : ConnectorIn = record {
      name = "shop 2";
      type = "postgres";
      config = [];
      uri = none;
    } in
    let updated = (update_source no_urls "s1" body api).1 in
    let (result, filled) = discover_source "s1" false 60 61 (found (orders ∷ [])) updated in
    (result ≡ ok (orders ∷ []))
    × ((discover_source "s1" false 70 71 crashed filled).0 ≡ ok (orders ∷ []))
unfolding update_source
discover_source-update_source_example =
    discover_source-update_source no_urls "s1"
      (record { name = "shop 2"; type = "postgres"; config = []; uri = none })
      (record { id = "s1"; name = "shop 2"; type = "postgres"; config = [] }) api 60 61 70 71
      (orders ∷ []) crashed refl (omega arith)
