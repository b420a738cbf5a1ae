-- ===== src/Mcp/Tests.antt =====
-- The theorems on the tools at concrete inputs.
use holypipe.Mcp.Partial.{update_connection-partial}
use holypipe.Mcp.Resync.{resync_connection-resync_tool, is_replied, passed, jobs_of}
use holypipe.Mcp.Syncs.{resync_tool}
use holypipe.Supervisor
use holypipe.Api.Connectors.{refused}
use holypipe.Prelude.Int.{pos}
use holypipe.Api.Operate.{resync_connection}
use holypipe.Auth.{Hashes, Store}
use holypipe.Api.{Api}
use holypipe.Models.{idle, Connection}
use holypipe.Mcp.{raised, Refusal, ConnectionArgs, World, update_connection}
use holypipe.Dsn.{Urls}
use holypipe.Sync.{Env}
use holypipe.Prelude.{◌≡◌, refl, true, false, none, some, [], ◌∷◌, ◌++◌}

abbrev no_urls : Urls
no_urls = record { urlparse = λ s. none; unquote = λ s. s; parse_qs = λ s. []; int_of = λ s. none }

-- Databases that refuse every call.
abbrev unread : Env
unread = record {
  respond = λ calls. none;
  reading = λ calls job field value. ([], false);
  greater = λ a b. none;
  clock = λ calls. 5;
  built = false;
  message = "refused";
}

abbrev world : World
world = record {
  urls = no_urls;
  next_cron = λ e t. none;
  fresh_id = "n1";
  now = 5;
  joined = true;
  answer = refused;
  cache_now = 5;
  cache_later = 6;
  sync_env = unread;
  session = record {
    failed = false;
    detail = none;
    state = record { cursors = none; snapshot_done = true; position = [] };
    at = 5;
  };
}

abbrev pipeline : Connection
pipeline = record {
  id = "c1";
  name = "orders";
  source_id = "s1";
  destination_id = "d1";
  mode = "cdc";
  schedule_type = "interval";
  interval_seconds = pos 60;
  cron_expression = none;
  enabled = true;
  destination_namespace = none;
  table_prefix = "";
  group_id = none;
  streams = [];
  state = record { cursors = none; snapshot_done = true; position = [] };
  status = idle;
  status_detail = none;
  last_run_at = none;
  next_run_at = none;
}

abbrev api : Api
api = record {
  sources = record { id = "s1"; name = "shop"; type = "postgres"; config = [] } ∷ [];
  destinations = [];
  connections = pipeline ∷ [];
  discovery_cache = record { store = []; default_ttl = 30 };
  supervisor = Supervisor.start "c1" Supervisor.init;
  background_tasks = [];
}

abbrev plain : Hashes
plain = record { hash = λ s. s; check = λ s t. some true; digest = λ s. s }

-- A user who may operate connections, with a token.
abbrev accounts : Store
accounts = record {
  roles =
      record {
        id = "r1";
        name = "operator";
        permissions = "connections.operate" ∷ [];
        is_builtin = false;
      }
      ∷ [];
  users =
      record {
        id = "u1";
        username = "eve";
        password_hash = "";
        is_active = true;
        must_change_password = false;
        roles = "r1" ∷ [];
      }
      ∷ [];
  sessions = [];
  tokens =
      record {
        id = "t1";
        user_id = "u1";
        token_hash = "hp_1";
        expires_at = none;
        last_used_at = none;
      }
      ∷ [];
}

-- Pausing a connection, as the tool's description suggests.
abbrev pause : ConnectionArgs
pause = record {
  name = none;
  mode = none;
  schedule_type = none;
  interval_seconds = none;
  cron_expression = none;
  enabled = some false;
  destination_namespace = none;
  table_prefix = none;
  streams = none;
}

update_connection-partial_example :
    let (reply, after) = update_connection world "c1" pause api in
    (after ≡ api) × (refusal : Refusal) × (reply ≡ raised refusal)
update_connection-partial_example = update_connection-partial world "c1" pause api refl

resync_connection-resync_tool_example :
    let (result, handled) = resync_connection "c1" [] true api in
    let (reply, after) = resync_tool "c1" [] true api in
    (passed result ≡ is_replied reply)
    × (handled ≡ record after { background_tasks = jobs_of reply ++ api.background_tasks })
resync_connection-resync_tool_example = resync_connection-resync_tool "c1" [] true api
