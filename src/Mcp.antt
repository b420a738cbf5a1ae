-- ===== src/Mcp.antt =====
-- mcp_server.py: the tools that change something, over the handlers of Api, and the wrapper that
-- lets a request in. The transport is outside. A tool runs in its caller's thread, with the caller
-- in a context variable. The tools that only read are left out but for the discovery, which fills
-- the cache.
pub mod Syncs
pub mod Calls
pub mod Access
pub mod Partial
pub mod Resync
mod Tests
use holypipe.Prelude.Int.{ℤ}
use holypipe.Models.{StreamDef, StreamSchema, Connection, Value}
use holypipe.Auth.{Store, fail, Hashes, ok, AuthUser, Result, has, load_auth_user_from_api_token}
use holypipe.Dsn.{Urls}
use holypipe.Api.{BackgroundTask, find_connection, with_connection, Api, ConnectorIn, ConnectorRow}
use Prim.Native.String.{◌++◌ as text_append}
use holypipe.Prelude.{
  ℕ, zero, suc, ◌+◌, ◌-◌, ◌*◌, ◌/◌, ◌%◌, ◌^◌, ◌≤◌, ◌<◌, ◌≡◌, ◌∙◌, refl, sym, ap, inl, inr, ◌⊎◌, ◌≢◌,
  String, Bool, true, false, not, ◌&&◌, ◌||◌, Option, none, some, List, [], ◌∷◌, ◌++◌, map, arith,
  ltb, leb, ◌==◌, keep, any, all, contains, length, str_eq, eq_iff, Bool-cases, Option-cases, Each,
  In, if◌then◌else◌,
}
use holypipe.Dict
use holypipe.Auth.{bearer}
use holypipe.Api.Operate.{
  delete_connection, start_cdc, stop_cdc, LastSession, is_running_status, valid_names, targets_of,
  cursors_of, pop_all, sorted_names, is_given,
}
use holypipe.Supervisor
use holypipe.Sync
use holypipe.Api.Connectors.{
  Answer, create_source, update_source, delete_source, create_destination, update_destination,
  delete_destination, discover_source,
}
use holypipe.Api.Create.{ConnectionIn, create_connection}
use holypipe.Api.Patch.{ConnectionPatch, patch_connection}
use holypipe.Dict.{Dict}

-- The RuntimeErrors of a tool, and another exception, which passes through it.
pub data Refusal : Type 0 where
  unauthenticated crashed refused : Refusal
  missing_permission : String → Refusal
  http_status : ℕ → Refusal

pub data Reply (A : Type 0) : Type 0 where
  replied : A → Reply A
  raised : Refusal → Reply A

-- What a tool returns; a sync is run before the tool returns.
pub data Returned : Type 0 where
  connector : ConnectorRow → Returned
  connection : Connection → Returned
  streams : List StreamSchema → Returned
  done : Returned
  synced : BackgroundTask → Returned

-- What is not the program's: the URL and the cron library, the new row's id, the clock, whether a
-- worker's thread ends in time, what the source's database answers, the cache's clock, what a
-- sync meets, and how a worker's last session ends.
pub record World : Type 0 where
  pub urls : Urls
  pub next_cron : String → ℕ → Option ℕ
  pub fresh_id : String
  pub now : ℕ
  pub joined : Bool
  pub answer : Answer
  pub cache_now : ℕ
  pub cache_later : ℕ
  pub sync_env : Sync.Env
  pub session : LastSession

-- `except HTTPException`; the status 500 of Api is another exception.
abbrev pub from_result : {A : Type 0} → (A → Returned) → Result A × Api → Reply Returned × Api
from_result f (ok a, api) = (replied (f a), api)
from_result f (fail status, api) =
    if status == 500 then (raised crashed, api) else (raised (http_status status), api)

-- The arguments of the connectors' tools.
pub record ConnectorArgs : Type 0 where
  pub name : String
  pub type : String
  pub config : Option (Dict Value)
  pub uri : Option String

abbrev pub config_or_empty : Option (Dict Value) → Dict Value
config_or_empty none = []
config_or_empty (some config) = config

abbrev pub connector_in : ConnectorArgs → ConnectorIn
connector_in args = record {
  name = args.name;
  type = args.type;
  config = config_or_empty args.config;
  uri = args.uri;
}

-- The arguments of `update_connection`, each None unless it is passed.
pub record ConnectionArgs : Type 0 where
  pub name : Option String
  pub mode : Option String
  pub schedule_type : Option String
  pub interval_seconds : Option ℤ
  pub cron_expression : Option String
  pub enabled : Option Bool
  pub destination_namespace : Option String
  pub table_prefix : Option String
  pub streams : Option (List StreamDef)

-- The body passes every argument on, so that each counts as set; only `group_id` does not.
abbrev pub patch_of : ConnectionArgs → ConnectionPatch
patch_of args = record {
  name = some args.name;
  mode = some args.mode;
  schedule_type = some args.schedule_type;
  interval_seconds = some args.interval_seconds;
  cron_expression = some args.cron_expression;
  enabled = some args.enabled;
  destination_namespace = some args.destination_namespace;
  table_prefix = some args.table_prefix;
  streams = some args.streams;
  group_id = none;
}

unfoldable pub update_connection : World → String → ConnectionArgs → Api → Reply Returned × Api
unfolding patch_connection
update_connection w id args api =
    from_result connection (patch_connection w.next_cron id w.now w.joined (patch_of args) api)
