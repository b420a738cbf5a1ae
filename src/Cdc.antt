-- ===== src/Cdc.antt =====
-- CdcWorker of engine/cdc.py. An exception ends a step with `false` and keeps what was done
-- before it. Events of the bus and log lines are left out; they change no state of the worker.
pub mod Lifecycle
pub mod Groups
pub mod Taken
pub mod Batches
pub mod Order
pub mod Runs
mod Tests
use holypipe.Prelude.{
  ℕ, ◌+◌, ◌-◌, ◌*◌, String, Bool, true, false, not, ◌&&◌, Option, none, some, List, [], ◌∷◌, ◌++◌,
  map, keep, length, ltb, str_eq, if◌then◌else◌,
}
use holypipe.Dict
use mathlib.Core.Option
use holypipe.Dict.{Dict}
use holypipe.Models.{
  Value, null, bool, text, time, Column, StreamSchema, StreamDef, State, Status, idle, error,
  RunStatus, success, failed, cancelled, Connection, second,
}
use holypipe.Connector.{
  project, all_columns, value_or_null, with_meta, Row, ChangeEvent, Call, prepare, write, delete,
  Respond, column_names, write_mode, meta_extracted_at, meta_op, meta_deleted, meta_columns,
  or_list, destination_table, select_columns,
}

pub record Totals : Type 0 where
  pub read : ℕ
  pub written : ℕ
  pub deleted : ℕ

-- `stored` is the state in the connection's row, `none` once the row is gone. `calls` are the
-- calls on the destination, newest first.
pub record Worker : Type 0 where
  pub totals : Totals
  pub calls : List Call
  pub state : State
  pub stored : Option State
  pub last_persist : ℕ

-- A call on the destination.
abbrev pub answer : Respond → Call → Worker → Option ℕ
answer respond call w = respond (call ∷ w.calls)

abbrev pub called : Call → Worker → Worker
called call w = record w { calls = call ∷ w.calls }

abbrev pub is_delete : ChangeEvent → Bool
is_delete ev = str_eq ev.op "delete"

-- `ev.key or ev.data`
abbrev key_or_data : Row → Row → Row
key_or_data [] data_row = data_row
key_or_data (x ∷ key) data_row = x ∷ key

-- The lists `upserts` and `deletes` of a stream's events.
pub upserts : ℕ → StreamSchema → List ChangeEvent → List Row
upserts now schema [] = []
upserts now schema (ev ∷ evs) =
    let rest = upserts now schema evs in
    if is_delete ev
    then rest
    else with_meta now ev.op (project (column_names schema) ev.data_row) ∷ rest

pub deletes : List ChangeEvent → List Row
deletes [] = []
deletes (ev ∷ evs) =
    let rest = deletes evs in if is_delete ev then key_or_data ev.key ev.data_row ∷ rest else rest

-- `by_stream.setdefault(ev.stream, []).append(ev)`
abbrev pub append_event : Option (List ChangeEvent) → ChangeEvent → List ChangeEvent
append_event none ev = ev ∷ []
append_event (some evs) ev = evs ++ ev ∷ []

pub group : Dict (List ChangeEvent) → List ChangeEvent → Dict (List ChangeEvent)
group by_stream [] = by_stream
group by_stream (ev ∷ events) =
    group (Dict.put ev.stream (append_event (Dict.get ev.stream by_stream) ev) by_stream) events

-- A call that is made only for some rows; the answer, or 0.
abbrev made : Respond → Call → Worker → Option ℕ × Worker
made respond call w = (answer respond call w, called call w)

pub write_upserts : Respond → String → StreamSchema → List Row → Worker → Option ℕ × Worker
write_upserts respond table schema [] w = (some 0, w)
write_upserts respond table schema (row ∷ rows) w =
    made respond
      (write table none (all_columns schema) (row ∷ rows) schema.primary_key
        (write_mode schema.primary_key))
      w

-- `if deletes and pk`
abbrev delete_by : Respond → String → List String → List Row → Worker → Option ℕ × Worker
delete_by respond table [] rows w = (some 0, w)
delete_by respond table (p ∷ pk) [] w = (some 0, w)
delete_by respond table (p ∷ pk) (key ∷ keys) w =
    made respond (delete table none (p ∷ pk) (key ∷ keys) true) w

pub delete_rows : Respond → String → StreamSchema → List Row → Worker → Option ℕ × Worker
delete_rows respond table schema keys w = delete_by respond table schema.primary_key keys w

abbrev counted : ℕ → ℕ → ℕ → Worker → Worker
counted read written deleted w = record w {
  totals = record {
    read = w.totals.read + read;
    written = w.totals.written + written;
    deleted = w.totals.deleted + deleted;
  };
}

abbrev after_delete : ℕ → ℕ → Option ℕ × Worker → Worker × Bool
after_delete read written (none, w) = (w, false)
after_delete read written (some deleted, w) = (counted read written deleted w, true)

abbrev after_write :
    Respond → String → StreamSchema → List ChangeEvent → Option ℕ × Worker → Worker × Bool
after_write respond table schema evs (none, w) = (w, false)
after_write respond table schema evs (some written, w) =
    after_delete (length evs) written (delete_rows respond table schema (deletes evs) w)

-- The events of one stream.
pub apply_stream : Respond → ℕ → String → StreamSchema → List ChangeEvent → Worker → Worker × Bool
unfolding write_upserts delete_rows upserts deletes
apply_stream respond now table schema evs w =
    after_write respond table schema evs
      (write_upserts respond table schema (upserts now schema evs) w)

-- The prepared streams: `schemas` and `dest_tables`, which have the same keys.
abbrev pub Streams : Type 0
Streams = Dict (StreamSchema × String)

abbrev apply_known :
    Respond → ℕ → Option (StreamSchema × String) → List ChangeEvent → Worker → Worker × Bool
apply_known respond now none evs w = (w, true)
apply_known respond now (some (schema, table)) evs w = apply_stream respond now table schema evs w

pub apply_groups : Respond → ℕ → Streams → Dict (List ChangeEvent) → Worker → Worker × Bool
unfolding apply_stream
apply_groups respond now streams [] w = (w, true)
apply_groups respond now streams ((name, evs) ∷ groups) w =
    let (w', passed) = apply_known respond now (Dict.get name streams) evs w in
    let rest = apply_groups respond now streams groups w' in if passed then rest else (w', false)

-- `_apply_batch`
pub apply_batch : Respond → ℕ → Streams → List ChangeEvent → Worker → Worker × Bool
unfolding group apply_groups
apply_batch respond now streams events w = apply_groups respond now streams (group [] events) w

-- `_persist_state`
pub persist_state : Bool → ℕ → Worker → Worker
persist_state force now w =
    if not force && ltb (now - w.last_persist) (2 * second)
    then w
    else record w { last_persist = now; stored = Option.map (λ _. w.state) w.stored }

-- `state.update(position)`
abbrev update_all : Dict Value → Dict Value → Dict Value
update_all [] d = d
update_all ((k, v) ∷ position) d = update_all position (Dict.put k v d)

pub move_position : Dict Value → Worker → Worker
move_position position w = record w {
  state = record w.state { position = update_all position w.state.position };
}

-- A batch that the source hands over: its events, its position, and the time.
pub record Batch : Type 0 where
  pub events : List ChangeEvent
  pub position : Dict Value
  pub at : ℕ

-- `on_batch`
pub on_batch : Respond → Streams → Batch → Worker → Worker × Bool
unfolding apply_batch persist_state move_position
on_batch respond streams batch w =
    let (w', passed) = apply_batch respond batch.at streams batch.events w in
    if passed
    then (persist_state false batch.at (move_position batch.position w'), true)
    else (w', false)

pub on_batches : Respond → Streams → List Batch → Worker → Worker × Bool
on_batches respond streams [] w = (w, true)
on_batches respond streams (batch ∷ batches) w =
    let (w', passed) = on_batch respond streams batch w in
    let rest = on_batches respond streams batches w' in if passed then rest else (w', false)
