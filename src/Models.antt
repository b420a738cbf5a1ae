-- ===== src/Models.antt =====
-- models.py: the rows of the metadata store. A time is a number of microseconds, and ids and
-- names are texts. A stream definition and the state of a connection are JSON in the store; here
-- they have the shape that the API's models and the engine give them.
use holypipe.Prelude.{ℕ, String, Bool, Option, List}
use holypipe.Prelude.Int.{ℤ}
use holypipe.Dict.{Dict}

-- One second of the clock.
abbrev pub second : ℕ
second = 1000000

-- Values of rows and of the stored state: what `normalize_value` leaves of a driver's value, and
-- JSON scalars. A float is its IEEE bit pattern.
pub data Value : Type 0 where
  null : Value
  bool : Bool → Value
  int : ℤ → Value
  float : ℕ → Value
  text : String → Value
  time : ℕ → Value
  bytes : List ℕ → Value

-- `Column` and `StreamSchema` of connectors/base.py.
pub record Column : Type 0 where
  pub name : String
  pub type : String
  pub nullable : Bool
  pub native_type : String

pub record StreamSchema : Type 0 where
  pub name : String
  pub table : String
  pub namespace : Option String
  pub columns : List Column
  pub primary_key : List String

-- An entry of `streams`, with the keys of StreamConfig in api/schemas.py.
pub record StreamDef : Type 0 where
  pub schema : StreamSchema
  pub selected : Bool
  pub sync_mode : String
  pub cursor_field : Option String
  pub primary_key : List String
  pub destination_table : Option String
  pub columns : Option (List String)

-- `state`: the cursors of batch runs, the flag of the initial snapshot, and the log position.
pub record State : Type 0 where
  pub cursors : Option (Dict Value)
  pub snapshot_done : Bool
  pub position : Dict Value

pub data Status : Type 0 where
  idle running streaming error : Status

pub record Connection : Type 0 where
  pub id : String
  pub name : String
  pub source_id : String
  pub destination_id : String
  pub mode : String
  pub schedule_type : String
  pub interval_seconds : ℤ
  pub cron_expression : Option String
  pub enabled : Bool
  pub destination_namespace : Option String
  pub table_prefix : String
  pub group_id : Option String
  pub streams : List StreamDef
  pub state : State
  pub status : Status
  pub status_detail : Option String
  pub last_run_at : Option ℕ
  pub next_run_at : Option ℕ

pub data RunStatus : Type 0 where
  running success failed cancelled : RunStatus

pub record SyncRun : Type 0 where
  pub id : String
  pub connection_id : String
  pub trigger : String
  pub status : RunStatus
  pub finished_at : Option ℕ
  pub records_read : ℕ
  pub records_written : ℕ
  pub records_deleted : ℕ
  pub error : Option String
