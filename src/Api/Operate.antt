-- ===== src/Api/Operate.antt =====
-- Deleting, running, starting and stopping a connection. `joined` says whether the worker's thread
-- ends in time.
use holypipe.Auth.{fail, ok, Result}
use holypipe.Models.{State, streaming, error, idle, StreamDef, Connection, Status, Value}
use holypipe.Api.{with_connection, find_connection, Api, BackgroundTask}
use holypipe.Prelude.{
  ℕ, ◌&&◌, String, Bool, true, false, not, Option, none, some, List, [], ◌∷◌, map, keep, any,
  contains, str_eq, if◌then◌else◌,
}
use Prim.Native.Nat.{ℕ, lt, eq, gt}
use Prim.Native.String.{compare}
use holypipe.Dict
use holypipe.Models.{running}
use holypipe.Supervisor
use holypipe.Dict.{Dict}

unfoldable pub delete_connection : String → Bool → Api → Result Bool × Api
unfolding Supervisor.stop
delete_connection id joined api = elim (find_connection id api.connections) [
  | none ↦ (fail 404, api)
  | some conn ↦ (
    ok true,
    record api {
      supervisor = Supervisor.stop id joined api.supervisor;
      connections = keep (λ (c : Connection). not (str_eq c.id id)) api.connections;
    },
  )
]

abbrev pub is_running_status : Status → Bool
is_running_status idle = false
is_running_status running = true
is_running_status streaming = false
is_running_status error = false

abbrev add_job : BackgroundTask → Api → Api
add_job job api = record api { background_tasks = job ∷ api.background_tasks }

unfoldable pub trigger_run : String → Api → Result Bool × Api
trigger_run id api = elim (find_connection id api.connections) [
  | none ↦ (fail 404, api)
  | some conn ↦
      if str_eq conn.mode "cdc"
      then (fail 400, api)
      else if is_running_status conn.status
      then (fail 409, api)
      else (
        ok true,
        add_job (record { connection_id = id; trigger = "manual"; only_streams = none }) api,
      )
]

-- `sorted` of a set of texts, from a list of them.
abbrev before_text : String → String → Bool
before_text s t = elim (compare s t) [ lt ↦ true | eq ↦ false | gt ↦ false ]

unfoldable pub insert_text : String → List String → List String
insert_text s [] = s ∷ []
insert_text s (t ∷ ts) =
    let rest = insert_text s ts in
    if str_eq s t then t ∷ ts else if before_text s t then s ∷ t ∷ ts else t ∷ rest

unfoldable pub sorted_names : List String → List String
unfolding insert_text
sorted_names [] = []
sorted_names (s ∷ ss) = insert_text s (sorted_names ss)

-- `{s["schema"]["name"] for s in conn.streams}`
abbrev pub valid_names : Connection → List String
valid_names conn = map (λ (s : StreamDef). s.schema.name) conn.streams

-- `if names`
abbrev pub is_given : List String → Bool
is_given [] = false
is_given (n ∷ ns) = true

abbrev pub targets_of : List String → Connection → List String
targets_of [] conn = sorted_names (valid_names conn)
targets_of (n ∷ ns) conn = n ∷ ns

abbrev pub cursors_of : Option (Dict Value) → Dict Value
cursors_of none = []
cursors_of (some cursors) = cursors

-- `cursors.pop(name, None)` for each name.
unfoldable pub pop_all : List String → Dict Value → Dict Value
pop_all [] cursors = cursors
pop_all (name ∷ names) cursors = pop_all names (Dict.pop name cursors)

abbrev restart_worker : String → Bool → Api → Api
restart_worker id joined api = record api {
  supervisor = Supervisor.start id (Supervisor.stop id joined api.supervisor);
}

unfoldable pub resync_cdc : Bool → Connection → Api → Result (List String) × Api
unfolding Supervisor.stop Supervisor.start
resync_cdc joined conn api = (
  ok [],
  restart_worker conn.id joined (
      with_connection
        (record conn { enabled = true; state = record conn.state { snapshot_done = false } }) api),
)

unfoldable pub resync_batch : List String → Connection → Api → Result (List String) × Api
unfolding sorted_names pop_all
resync_batch names conn api =
    let targets = targets_of names conn in
    let cursors = pop_all targets (cursors_of conn.state.cursors) in
    (
      ok targets,
      add_job (record { connection_id = conn.id; trigger = "resync"; only_streams = some targets })
          (with_connection
            (record conn { enabled = true; state = record conn.state { cursors = some cursors } })
            api),
    )

-- `resync_connection`; the names are the body's `stream_names`, and the answer the streams.
unfoldable pub resync_found : List String → Bool → Connection → Api → Result (List String) × Api
unfolding resync_cdc resync_batch
resync_found names joined conn api =
    if any (λ name. not (contains (valid_names conn) name)) names
    then (fail 400, api)
    else if str_eq conn.mode "cdc"
    then if is_given names then (fail 400, api) else resync_cdc joined conn api
    else if is_running_status conn.status
    then (fail 409, api)
    else resync_batch names conn api

unfoldable pub resync_connection : String → List String → Bool → Api → Result (List String) × Api
unfolding resync_found
resync_connection id names joined api = elim (find_connection id api.connections) [
  | none ↦ (fail 404, api)
  | some conn ↦ resync_found names joined conn api
]

unfoldable pub start_cdc : String → Api → Result Bool × Api
unfolding Supervisor.start
start_cdc id api = elim (find_connection id api.connections) [
  | none ↦ (fail 404, api)
  | some conn ↦ if not (str_eq conn.mode "cdc") then (fail 400, api) else (
    ok true,
    record (with_connection (record conn { enabled = true }) api) {
      supervisor = Supervisor.start id api.supervisor;
    },
  )
]

-- What the last session of a worker leaves in the row when its thread ends, in `CdcWorker.run`.
pub record LastSession : Type 0 where
  pub failed : Bool
  pub detail : Option String
  pub state : State
  pub at : ℕ

abbrev pub after_session : LastSession → Connection → Connection
after_session session conn = record conn {
  state = session.state;
  status = if session.failed then error else idle;
  status_detail = session.detail;
  last_run_at = some session.at;
}

-- A thread that is joined has written the row after the handler's commit.
unfoldable pub stop_cdc : String → Bool → LastSession → Api → Result Bool × Api
unfolding Supervisor.stop
stop_cdc id joined session api = elim (find_connection id api.connections) [
  | none ↦ (fail 404, api)
  | some conn ↦
      let new = record conn { enabled = false; status = idle } in
      let committed = with_connection new api in
      let row =
        if joined && Supervisor.is_running id api.supervisor
        then with_connection (after_session session new) committed
        else committed in
      (ok true, record row { supervisor = Supervisor.stop id joined api.supervisor })
]
