-- ===== src/Sync.antt =====
-- `run_batch_sync` of engine/sync.py. The rows of the run and of the connection stay in the store
-- during a run. Events of the bus and log lines are left out, and so is the text of an error
-- beyond being an argument.
pub mod Cursors
pub mod Streams
pub mod Shadow
pub mod Failures
mod Tests
use holypipe.Prelude.{
  all, ◌||◌, ℕ, ◌+◌, String, Bool, true, false, not, ◌&&◌, Option, none, some, List, [], ◌∷◌, ◌++◌,
  map, keep, contains, length, str_eq, if◌then◌else◌, ◌⨾◌,
}
use holypipe.Dict
use holypipe.Dict.{Dict}
use mathlib.Core.Option
use holypipe.Models.{
  text, float, int, bool, Value, null, time, bytes, StreamSchema, StreamDef, State, Status, idle,
  error, RunStatus, success, failed, Connection,
}
use holypipe.Connector.{
  Row, Call, prepare, truncate, write, swap_in, Respond, column_names, write_mode, or_list,
  destination_table, select_columns, shadow_table_name, take_chars, value_or_null, with_meta,
  all_columns,
}

-- A stream of the run, with what the loop finds out about it before it reads.
pub record Job : Type 0 where
  pub schema : StreamSchema
  pub dest_table : String
  pub full_refresh : Bool
  pub incremental : Bool
  pub cursor_field : Option String
  pub read_columns : Option (List String)

-- What is outside: the destination, the source, the comparison `a > b` of two values, where `none`
-- is a TypeError, the clock, and the text of an exception. A reading is the batches that `read`
-- yields for a cursor's field and value, and whether it then ends, or raises.
pub record Env : Type 0 where
  pub respond : Respond
  pub reading : List Call → Job → Option String → Value → List (List Row) × Bool
  pub greater : Value → Value → Option Bool
  pub clock : List Call → ℕ
  pub built : Bool
  pub message : String

-- The locals of the run, and of the stream at hand. `calls` are the calls on the destination,
-- newest first.
pub record Progress : Type 0 where
  pub calls : List Call
  pub state : State
  pub read : ℕ
  pub written : ℕ
  pub stream_stats : Dict (ℕ × ℕ)
  pub max_seen : Value
  pub read_count : ℕ
  pub written_count : ℕ

-- `if selected_columns`, `if cursor_field`
abbrev picked : Option (List String) → Bool
picked none = false
picked (some []) = false
picked (some (c ∷ cs)) = true

abbrev pub truthy : Option String → Option String
truthy none = none
truthy (some name) = if str_eq name "" then none else some name

abbrev needed_cursor : Option String → List String
needed_cursor none = []
needed_cursor (some name) = if str_eq name "xmin" then [] else name ∷ []

abbrev cursor_field_of : StreamDef → Option String
cursor_field_of st = if str_eq st.sync_mode "xmin" then some "xmin" else st.cursor_field

abbrev working_schema : StreamDef → StreamSchema
working_schema st =
    let schema = record st.schema { primary_key = or_list st.primary_key st.schema.primary_key } in
    select_columns st.columns (schema.primary_key ++ needed_cursor (truthy (cursor_field_of st)))
      schema

pub plan : String → StreamDef → Job
plan prefix st = record {
  schema = working_schema st;
  dest_table = destination_table prefix st.destination_table st.schema.table;
  full_refresh = str_eq st.sync_mode "full_refresh";
  incremental = str_eq st.sync_mode "incremental" || str_eq st.sync_mode "xmin";
  cursor_field = cursor_field_of st;
  read_columns = if picked st.columns then some (column_names (working_schema st)) else none;
}

abbrev pub write_table : Job → String
write_table job = if job.full_refresh then shadow_table_name job.dest_table else job.dest_table

-- The field that an incremental stream compares, if any.
abbrev pub compared : Job → Option String
compared job = if job.incremental then truthy job.cursor_field else none

-- The field that the source is given.
abbrev pub read_field : Job → Option String
read_field job = if job.incremental then job.cursor_field else none

abbrev pub cursors_of : State → Dict Value
cursors_of state = elim state.cursors [ none ↦ [] | some cursors ↦ cursors ]

abbrev pub saved : Option String → State → String → Value
saved none state name = null
saved (some field) state name = value_or_null (Dict.get name (cursors_of state))

pub cursor_value : Job → State → Value
cursor_value job state = saved (compared job) state job.schema.name

abbrev pub is_null : Value → Bool
is_null null = true
is_null (bool b) = false
is_null (int i) = false
is_null (float bits) = false
is_null (text s) = false
is_null (time t) = false
is_null (bytes b) = false

-- `max_seen` after a value of the cursor's field; `none` is the TypeError.
abbrev pub newer : (Value → Value → Option Bool) → Value → Value → Option Value
newer greater v max_seen =
    if is_null v
    then some max_seen
    else if is_null max_seen
    then some v
    else Option.map (λ above. if above then v else max_seen) (greater v max_seen)

abbrev pub field_value : String → Row → Value
field_value field row = value_or_null (Dict.get field row)

pub seen : (Value → Value → Option Bool) → String → List Row → Value → Option Value
seen greater field [] max_seen = some max_seen
seen greater field (row ∷ rows) max_seen = elim (newer greater (field_value field row) max_seen) [
  | none ↦ none
  | some max_seen' ↦ seen greater field rows max_seen'
]

-- The loop over a batch looks at the field whenever the stream names one, incremental or not.
pub seen_batch : Env → Job → List Row → Value → Option Value
unfolding seen
seen_batch env job rows max_seen = elim (truthy job.cursor_field) [
  | none ↦ some max_seen
  | some field ↦ seen env.greater field rows max_seen
]

-- A call on the destination whose answer is not used.
pub call : Env → Call → Progress → Progress × Bool
call env c p = elim (env.respond (c ∷ p.calls)) [
  | none ↦ (record p { calls = c ∷ p.calls }, false)
  | some n ↦ (record p { calls = c ∷ p.calls }, true)
]

abbrev wrote : ℕ → ℕ → Progress → Progress
wrote rows n p = record p {
  written_count = p.written_count + n;
  read = p.read + rows;
  written = p.written + rows;
}

pub write_batch : Env → Option String → Job → List Row → Progress → Progress × Bool
write_batch env namespace job rows p =
    let pk = job.schema.primary_key in
    let c = write (write_table job) namespace (all_columns job.schema) rows pk (write_mode pk) in
    let p' = record p { calls = c ∷ p.calls } in
    elim (env.respond (c ∷ p.calls)) [
      | none ↦ (p', false)
      | some n ↦ (wrote (length rows) n p', true)
    ]

-- One batch of the source.
pub load_batch : Env → Option String → Job → ℕ → List Row → Progress → Progress × Bool
unfolding seen_batch write_batch
load_batch env namespace job now batch p =
    let rows = map (with_meta now "read") batch in
    let p' = record p { read_count = p.read_count + length batch } in
    elim (seen_batch env job rows p.max_seen) [
      | none ↦ (p', false)
      | some max_seen ↦ write_batch env namespace job rows (record p' { max_seen = max_seen })
    ]

pub load_batches :
    Env → Option String → Job → ℕ → List (List Row) → Bool → Progress → Progress × Bool
unfolding load_batch
load_batches env namespace job now [] ended p = (p, ended)
load_batches env namespace job now (batch ∷ batches) ended p =
    load_batch env namespace job now batch p ⨾ load_batches env namespace job now batches ended

pub load : Env → Option String → Job → Progress → Progress × Bool
unfolding load_batches
load env namespace job p =
    let (batches, ended) = env.reading p.calls job (read_field job) p.max_seen in
    load_batches env namespace job (env.clock p.calls) batches ended p

-- The shadow table, or the table itself, before the rows are read.
pub prepare_table : Env → Option String → Job → Progress → Progress × Bool
unfolding call
prepare_table env namespace job p =
    call env (prepare (write_table job) namespace job.schema) p ⨾ λ p'.
    (if job.full_refresh then call env (truncate (write_table job) namespace) p' else (p', true))

pub swap_table : Env → Option String → Job → Progress → Progress × Bool
unfolding call
swap_table env namespace job p =
    if job.full_refresh
    then call env (swap_in job.dest_table namespace (write_table job)) p
    else (p, true)

pub save_cursor : Job → Progress → Progress
save_cursor job p = elim (compared job) [
  | none ↦ p
  | some field ↦ if is_null p.max_seen then p else record p {
    state = record p.state {
      cursors = some (Dict.put job.schema.name p.max_seen (cursors_of p.state));
    };
  }
]

abbrev pub start_stream : Job → Progress → Progress
start_stream job p = record p {
  max_seen = cursor_value job p.state;
  read_count = 0;
  written_count = 0;
}

abbrev pub close_stream : Job → Progress → Progress
close_stream job p = record p {
  stream_stats = Dict.put job.schema.name (p.read_count, p.written_count) p.stream_stats;
}

-- The body of the loop over the streams.
pub run_stream : Env → Option String → Job → Progress → Progress × Bool
unfolding prepare_table load swap_table save_cursor cursor_value
run_stream env namespace job p =
    prepare_table env namespace job (start_stream job p)
    ⨾ load env namespace job
    ⨾ swap_table env namespace job
    ⨾ λ p'. (close_stream job (save_cursor job p'), true)

pub run_streams : Env → Option String → List Job → Progress → Progress × Bool
unfolding run_stream
run_streams env namespace [] p = (p, true)
run_streams env namespace (job ∷ jobs) p =
    run_stream env namespace job p ⨾ run_streams env namespace jobs

-- `only_streams`, when given, limits the run to these streams.
abbrev limited : Option (List String) → List StreamDef → List StreamDef
limited none defs = defs
limited (some []) defs = defs
limited (some (n ∷ ns)) defs = keep (λ st. contains (n ∷ ns) st.schema.name) defs

pub chosen : Option (List String) → List StreamDef → List StreamDef
chosen only_streams defs = limited only_streams (keep (λ st. st.selected) defs)

abbrev pub started : State → Progress
started state = record {
  calls = [];
  state = state;
  read = 0;
  written = 0;
  stream_stats = [];
  max_seen = null;
  read_count = 0;
  written_count = 0;
}

-- The connection's row and the run's row at the end, and the locals.
pub record Outcome : Type 0 where
  pub connection : Connection
  pub run_status : RunStatus
  pub progress : Progress

-- The column of the state holds JSON, which has no times and no bytes.
unfoldable pub is_json : Value → Bool
is_json null = true
is_json (bool b) = true
is_json (int i) = true
is_json (float bits) = true
is_json (text s) = true
is_json (time t) = false
is_json (bytes b) = false

abbrev pub is_json_entry : String × Value → Bool
is_json_entry (key, v) = is_json v

unfoldable pub is_storable : State → Bool
unfolding is_json
is_storable state = all is_json_entry (cursors_of state) && all is_json_entry state.position

abbrev stored_outcome : Env → Connection → Progress → Outcome
stored_outcome env conn p = record {
  connection = record conn {
    state = p.state;
    status = idle;
    last_run_at = some (env.clock p.calls);
    status_detail = none;
  };
  run_status = success;
  progress = p;
}

-- `except Exception`
abbrev raised_outcome : Env → Connection → Progress → Outcome
raised_outcome env conn p = record {
  connection = record conn { status = error; status_detail = some (take_chars 2000 env.message) };
  run_status = failed;
  progress = p;
}

-- The commit of a state that is no JSON raises, and the session is rolled back.
unfoldable pub outcome : Env → Connection → Progress × Bool → Outcome
unfolding is_storable
outcome env conn (p, true) =
    if is_storable p.state then stored_outcome env conn p else raised_outcome env conn p
outcome env conn (p, false) = raised_outcome env conn p

-- The body of the `try`.
pub sync : Env → Option (List String) → Connection → Progress × Bool
unfolding run_streams plan chosen
sync env only_streams conn =
    (started conn.state, env.built)
    ⨾ run_streams env conn.destination_namespace
        (map (plan conn.table_prefix) (chosen only_streams conn.streams))

-- `run_batch_sync`; `none` is the ConnectorError for a connection that is not enabled.
pub run_batch_sync : Env → Option (List String) → Connection → Option Outcome
unfolding sync outcome
run_batch_sync env only_streams conn =
    if conn.enabled then some (outcome env conn (sync env only_streams conn)) else none
