-- ===== src/Postgres/Setup.antt =====
-- `_dsn`, and PostgresSource's `setup_cdc` and `teardown_cdc` on the slots of a server. Names of
-- slots and plugins are texts.
use holypipe.Prelude.{
  String, Bool, not, ◌&&◌, Option, none, some, List, [], ◌∷◌, contains, str_eq, if◌then◌else◌,
}
use holypipe.Dict
use holypipe.Prelude.{◌>>=◌}
use holypipe.Models.{Value, null, int, text}
use holypipe.Prelude.Int.{ℤ, pos}
use holypipe.Connector.Values.{IntOf, get_or, is_truthy}
use holypipe.Dict.{Dict}

-- What the code keeps of a connection's log position.
pub record Replication : Type 0 where
  pub slot : Option String
  pub plugin : Option String
  pub lsn : Option String

-- The slots with their plugins, those that a client reads, and the plugins that the server has.
pub record Server : Type 0 where
  pub wal_level : String
  pub slots : Dict String
  pub active : List String
  pub plugins : List String

abbrev pub non_empty : Option String → Option String
non_empty none = none
non_empty (some s) = if str_eq s "" then none else some s

abbrev pub or_slot : Option String → String → String
or_slot none default = default
or_slot (some s) default = s

-- `_slot_name`, with the "replication_slot" of the config.
abbrev pub slot_name : Option String → Replication → String
slot_name config_slot state =
    or_slot (non_empty state.slot) (or_slot (non_empty config_slot) "holypipe_slot")

-- The plugin of the slot that the first candidate makes which the server has.
unfoldable pub create_slot : String → List String → Server → Option String × Server
create_slot slot [] server = (none, server)
create_slot slot (candidate ∷ candidates) server =
    let others = create_slot slot candidates server in
    if contains server.plugins candidate
    then (some candidate, record server { slots = Dict.put slot candidate server.slots })
    else others

abbrev pub candidates : List String
candidates = "wal2json" ∷ "test_decoding" ∷ []

abbrev pub started : String → Replication → Option String × Server → Option Replication × Server
started slot state (none, server) = (none, server)
started slot state (some plugin, server) =
    (some (record state { slot = some slot; plugin = some plugin }), server)

-- The plugin of the slot that is there, or is created.
unfoldable pub slot_plugin : String → Option String → Server → Option String × Server
unfolding create_slot
slot_plugin slot (some plugin) server = (some plugin, server)
slot_plugin slot none server = create_slot slot candidates server

-- `setup_cdc` for a slot; `none` is a ConnectorError.
unfoldable pub setup_slot : String → Replication → Server → Option Replication × Server
unfolding slot_plugin
setup_slot slot state server =
    if not (str_eq server.wal_level "logical")
    then (none, server)
    else started slot state (slot_plugin slot (Dict.get slot server.slots) server)

unfoldable pub setup_cdc : Option String → Replication → Server → Option Replication × Server
unfolding setup_slot
setup_cdc config_slot state server = setup_slot (slot_name config_slot state) state server

-- `teardown_cdc`; exceptions are swallowed, `reached` says that there was none.
unfoldable pub teardown_cdc : Bool → Replication → Server → Server
teardown_cdc reached state server = elim (non_empty state.slot) [
  | none ↦ server
  | some slot ↦
      if reached && not (contains server.active slot)
      then record server { slots = Dict.pop slot server.slots }
      else server
]

pub record Dsn : Type 0 where
  pub host : Value
  pub port : ℤ
  pub dbname : Value
  pub user : Value
  pub password : Value
  pub connect_timeout : ℤ
  pub sslmode : Value

-- `config.get("sslmode") or ("require" if config.get("ssl") else "prefer")`
abbrev sslmode_of : Dict Value → Value
sslmode_of config =
    let given = get_or "sslmode" null config in
    let default = text (if is_truthy (get_or "ssl" null config) then "require" else "prefer") in
    if is_truthy given then given else default

-- `_dsn`; `none` is an exception. The name of the application is the same for all.
unfoldable pub dsn_of : IntOf → Dict Value → Option Dsn
dsn_of int_of config = do
  port ← int_of (get_or "port" (int (pos 5432)) config)
  connect_timeout ← int_of (get_or "connect_timeout" (int (pos 10)) config)
  some (record {
    host = get_or "host" (text "localhost") config;
    port = port;
    dbname = get_or "database" (text "postgres") config;
    user = get_or "username" (text "postgres") config;
    password = get_or "password" (text "") config;
    connect_timeout = connect_timeout;
    sslmode = sslmode_of config;
  })
