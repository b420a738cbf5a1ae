-- ===== src/Cdc/Lifecycle.antt =====
-- `run` and `_initial_snapshot` of CdcWorker in engine/cdc.py.
use holypipe.Prelude.{
  ◌⨾◌, ℕ, String, Bool, true, false, Option, none, some, List, [], ◌∷◌, map, keep, length,
  if◌then◌else◌,
}
use holypipe.Dict
use holypipe.Models.{
  StreamSchema, StreamDef, State, Status, idle, error, RunStatus, success, failed, cancelled,
  Connection,
}
use holypipe.Connector.{
  with_meta, all_columns, Row, prepare, write, Respond, write_mode, or_list, destination_table,
  select_columns,
}
use holypipe.Cdc.{Worker, Streams, Batch, answer, called, counted, persist_state, on_batches}

-- What the source and the clock answer during a run. A reading is the batches that `read` yields,
-- and whether it then ends, or raises; so are the changes of `stream_changes`.
pub record Env : Type 0 where
  pub built : Bool
  pub setup : State → Option State
  pub reading : StreamSchema → List (List Row) × Bool
  pub changes : List Batch
  pub ended : Bool
  pub stopped : Bool
  pub now : ℕ

abbrev pub tried : Option ℕ → Worker → Worker × Bool
tried none w = (w, false)
tried (some n) w = (w, true)

-- The loop over `streams_def`: the schema of a stream, its primary key given or found.
pub stream_schema : StreamDef → StreamSchema
stream_schema st =
    let schema = record st.schema { primary_key = or_list st.primary_key st.schema.primary_key } in
    select_columns st.columns schema.primary_key schema

pub stream_table : String → StreamDef → String
stream_table prefix st = destination_table prefix st.destination_table st.schema.table

pub prepared : String → List StreamDef → Streams → Streams
unfolding stream_schema stream_table
prepared prefix [] streams = streams
prepared prefix (st ∷ defs) streams =
    prepared prefix defs
      (Dict.put st.schema.name (stream_schema st, stream_table prefix st) streams)

unfoldable pub prepare_streams :
    Respond → String → Option String → List StreamDef → Worker → Worker × Bool
unfolding stream_schema stream_table
prepare_streams respond prefix namespace [] w = (w, true)
prepare_streams respond prefix namespace (st ∷ defs) w =
    let call = prepare (stream_table prefix st) namespace (stream_schema st) in
    tried (answer respond call w) (called call w) ⨾ prepare_streams respond prefix namespace defs

unfoldable pub snapshot_batch :
    Respond → ℕ → String → StreamSchema → List Row → Worker → Worker × Bool
snapshot_batch respond now table schema batch w =
    let rows = map (with_meta now "snapshot") batch in
    let call =
      write table none (all_columns schema) rows schema.primary_key
        (write_mode schema.primary_key) in
    tried (answer respond call w) (called call w) ⨾ λ w'.
    (counted (length batch) (length rows) 0 w', true)

unfoldable pub snapshot_batches :
    Respond → ℕ → String → StreamSchema → List (List Row) → Bool → Worker → Worker × Bool
unfolding snapshot_batch
snapshot_batches respond now table schema [] ended w = (w, ended)
snapshot_batches respond now table schema (batch ∷ batches) ended w =
    snapshot_batch respond now table schema batch w
    ⨾ snapshot_batches respond now table schema batches ended

-- `_initial_snapshot`
unfoldable pub initial_snapshot : Respond → Env → Streams → Worker → Worker × Bool
unfolding snapshot_batches
initial_snapshot respond env [] w = (w, true)
initial_snapshot respond env ((name, (schema, table)) ∷ streams) w =
    snapshot_batches respond env.now table schema (env.reading schema).0 (env.reading schema).1 w
    ⨾ initial_snapshot respond env streams

unfoldable pub setup_step : Env → Worker → Worker × Bool
unfolding persist_state
setup_step env w = elim (env.setup w.state) [
  | none ↦ (w, false)
  | some state ↦ (persist_state true env.now (record w { state = state }), true)
]

abbrev pub mark_snapshot : Env → Worker → Worker × Bool
mark_snapshot env w = (
  persist_state true env.now (record w { state = record w.state { snapshot_done = true } }),
  true,
)

unfoldable pub snapshot_step : Respond → Env → Streams → Worker → Worker × Bool
unfolding initial_snapshot persist_state
snapshot_step respond env streams w =
    if w.state.snapshot_done
    then (w, true)
    else initial_snapshot respond env streams w ⨾ mark_snapshot env

-- The body of the `try` in `run`.
unfoldable pub stream_all : Respond → Env → Connection → Worker → Worker × Bool
unfolding prepared prepare_streams setup_step snapshot_step persist_state
stream_all respond env conn w =
    let defs = keep (λ st. st.selected) conn.streams in
    let streams = prepared conn.table_prefix defs [] in
    (w, env.built)
    ⨾ prepare_streams respond conn.table_prefix conn.destination_namespace defs
    ⨾ setup_step env
    ⨾ snapshot_step respond env streams
    ⨾ on_batches respond streams env.changes
    ⨾ (λ w'. (w', env.ended))
    ⨾ λ w'. (persist_state true env.now w', true)

-- How a run ends: the worker, and the status of its SyncRun and of its connection.
pub record Finished : Type 0 where
  pub worker : Worker
  pub run_status : RunStatus
  pub status : Status

abbrev pub finished : Bool → Worker × Bool → Finished
finished stopped (w, true) = record {
  worker = w;
  run_status = if stopped then cancelled else success;
  status = idle;
}
finished stopped (w, false) = record { worker = w; run_status = failed; status = error }

-- `run`; a connection that is not enabled starts nothing.
unfoldable pub run : Respond → Env → Connection → Worker → Option Finished
unfolding stream_all
run respond env conn w =
    if conn.enabled then some (finished env.stopped (stream_all respond env conn w)) else none
