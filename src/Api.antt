-- ===== src/Api.antt =====
-- api/routes.py: the handlers that change the metadata rows, the discovery cache and the CDC
-- workers, behind their permission checks. A handler takes what is not the program's as arguments:
-- the new row's id, the clock, the cron library, what a database answers. An error's status is
-- `fail`; an exception that the handler does not catch is the status 500, and what it had not
-- committed is dropped.
pub mod Connectors
pub mod Create
pub mod Patch
pub mod Operate
pub mod Discovery
pub mod Resync
pub mod Workers
mod Tests
use holypipe.Supervisor.{Supervisor}
use holypipe.Cache.{TtlCache}
use holypipe.Models.{StreamSchema, Connection, StreamDef, Value}
use Prim.Native.String.{◌++◌ as text_append}
use holypipe.Prelude.{
  ℕ, zero, suc, ◌+◌, ◌-◌, ◌*◌, ◌/◌, ◌%◌, ◌^◌, ◌≤◌, ◌<◌, ◌≡◌, ◌∙◌, refl, sym, ap, inl, inr, ◌⊎◌, ◌≢◌,
  String, Bool, true, false, not, ◌&&◌, ◌||◌, Option, none, some, List, [], ◌∷◌, ◌++◌, map, arith,
  ltb, leb, ◌==◌, keep, any, all, contains, length, str_eq, eq_iff, Bool-cases, Option-cases, Each,
  In, if◌then◌else◌,
}
use holypipe.Dict
use holypipe.Dict.{Dict}

-- A row of `sources` or of `destinations`.
pub record ConnectorRow : Type 0 where
  pub id : String
  pub name : String
  pub type : String
  pub config : Dict Value

-- ConnectorIn of api/schemas.py
pub record ConnectorIn : Type 0 where
  pub name : String
  pub type : String
  pub config : Dict Value
  pub uri : Option String

-- A background task: `run_batch_sync` with its trigger and `only_streams`.
pub record BackgroundTask : Type 0 where
  pub connection_id : String
  pub trigger : String
  pub only_streams : Option (List String)

pub record Api : Type 0 where
  pub sources : List ConnectorRow
  pub destinations : List ConnectorRow
  pub connections : List Connection
  pub discovery_cache : TtlCache (List StreamSchema)
  pub supervisor : Supervisor
  pub background_tasks : List BackgroundTask

-- SOURCE_TYPES of connectors/registry.py, with `supports_cdc` of each class.
abbrev pub source_types : Dict Bool
source_types = ("postgres", true) ∷ ("mysql", true) ∷ ("sqlite", true) ∷ []

-- DESTINATION_TYPES
abbrev pub destination_types : List String
destination_types = "postgres" ∷ "mysql" ∷ "sqlite" ∷ []

-- `db.get(...)`
abbrev pub find_row : String → List ConnectorRow → Option ConnectorRow
find_row id [] = none
find_row id (row ∷ rows) = if str_eq row.id id then some row else find_row id rows

abbrev pub find_connection : String → List Connection → Option Connection
find_connection id [] = none
find_connection id (conn ∷ conns) =
    if str_eq conn.id id then some conn else find_connection id conns

-- A connection's row at the commit.
abbrev pub store_connection : Connection → List Connection → List Connection
store_connection new conns =
    map (λ (conn : Connection). if str_eq conn.id new.id then new else conn) conns

abbrev pub with_connection : Connection → Api → Api
with_connection conn api = record api { connections = store_connection conn api.connections }

-- The first check that does not pass ends the request.
abbrev pub first_failure : List (Option ℕ) → Option ℕ
first_failure [] = none
first_failure (none ∷ checks) = first_failure checks
first_failure (some status ∷ checks) = some status

abbrev pub refuse : ℕ → Bool → Option ℕ
refuse status true = some status
refuse status false = none

-- `x in (a, b)`
abbrev pub is_mode : String → Bool
is_mode mode = contains ("batch" ∷ "cdc" ∷ []) mode

abbrev pub is_schedule : String → Bool
is_schedule type = contains ("interval" ∷ "cron" ∷ []) type

-- The check of `supports_cdc`; a type that is not in the table is a KeyError.
abbrev pub supports : Option Bool → Option ℕ
supports none = some 500
supports (some supported) = refuse 400 (not supported)

abbrev pub cdc_check : String → Option String → Option ℕ
cdc_check mode none = refuse 500 (str_eq mode "cdc")
cdc_check mode (some type) =
    if str_eq mode "cdc" then supports (Dict.get type source_types) else none

-- The check of the streams' `sync_mode`; without a source row it is an AttributeError.
abbrev pub xmin_check : List StreamDef → Option String → Option ℕ
xmin_check streams none = refuse 500 (any (λ (s : StreamDef). str_eq s.sync_mode "xmin") streams)
xmin_check streams (some type) =
    refuse 400
      (any (λ (s : StreamDef). str_eq s.sync_mode "xmin" && not (str_eq type "postgres")) streams)

abbrev pub type_of : Option ConnectorRow → Option String
type_of none = none
type_of (some row) = some row.type
