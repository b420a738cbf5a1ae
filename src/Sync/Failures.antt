-- ===== src/Sync/Failures.antt =====
-- Cursors that the connection's row cannot hold.
use mathlib.Core.Path.{subst}
use holypipe.Dict
use holypipe.Dict.{Dict}
use holypipe.Connector.{Call, Row, value_or_null}
use holypipe.Models.{
  Value, null, bool, int, float, text, time, bytes, State, StreamDef, Connection, error, failed,
}
use holypipe.Prelude.{
  map, ◌≡◌, ◌∙◌, refl, sym, ap, String, Bool, true, false, inl, inr, Option, some, List, [], ◌∷◌,
  all, arith, Bool-cases, Each, In, then_passed, ◌⨾◌,
}
use holypipe.Sync.{
  Env, Job, Progress, Outcome, outcome, is_storable, is_json, is_json_entry, cursors_of, saved,
  is_null, field_value, compared, cursor_value, read_field, plan, chosen, started, run_stream,
  run_streams, prepare_table, start_stream, sync, run_batch_sync,
}
use holypipe.Sync.Cursors.{IsStrict, Sees, marked}
use holypipe.Sync.Streams.{run_stream-Sees}

-- A time, or nothing.
abbrev pub is_dated : Value → Bool
is_dated null = true
is_dated (bool b) = false
is_dated (int i) = false
is_dated (float bits) = false
is_dated (text s) = false
is_dated (time t) = true
is_dated (bytes b) = false

-- The rows have times in this field, and one has one.
pub record AreDated (field : String) (rows : List Row) : Type 0 where
  pub dated : Each (λ row. is_dated (field_value field row) ≡ true) rows
  pub at : Row
  pub here : In at rows
  pub given : is_null (field_value field at) ≡ false

Each-In : (P : Row → Type 0) (row : Row) (rows : List Row) → Each P rows → In row rows → P row
Each-In P row [] each here = absurd here
Each-In P row (r ∷ rows) (p, each) (inl same) = subst P same p
Each-In P row (r ∷ rows) (p, each) (inr here) = Each-In P row rows each here

dated-is_json : (v : Value) → is_dated v ≡ true → is_null v ≡ false → is_json v ≡ false
unfolding is_json
dated-is_json null d n = cc
dated-is_json (bool b) d n = cc
dated-is_json (int i) d n = cc
dated-is_json (float bits) d n = cc
dated-is_json (text s) d n = cc
dated-is_json (time t) d n = refl
dated-is_json (bytes b) d n = cc

-- The cursor after dated rows is a time.
Sees-dated :
    (greater : Value → Value → Option Bool) (field : String) (rows : List Row) (m m' : Value)
    → is_null m ≡ true
    → AreDated field rows
    → Sees greater field rows m m'
    → (is_dated m' ≡ true) × (is_null m' ≡ false)
Sees-dated greater field rows m m' none_before d sees =
    let full : is_null m' ≡ false = elim (Each-In _ d.at rows sees.covers d.here) [
      | inl null_row ↦ absurd (ground (arith, d.given))
      | inr (full, above) ↦ full
    ] in
    elim sees.reached [
      | inl same ↦ absurd (ground (arith, ap is_null same, none_before, full))
      | inr (row, here, is, some_m) ↦
          (ap is_dated (sym is) ∙ Each-In _ row rows d.dated here, some_m)
    ]

get-not-json :
    (key : String) (d : Dict Value)
    → is_null (value_or_null (Dict.get key d)) ≡ false
    → is_json (value_or_null (Dict.get key d)) ≡ false
    → all is_json_entry d ≡ false
get-not-json key [] some_v bad = cc
get-not-json key ((k, v) ∷ d) some_v bad = ground (arith, get-not-json key d)

cursor_value-not-storable :
    (job : Job) (field : String) (state : State)
    → compared job ≡ some field
    → is_dated (cursor_value job state) ≡ true
    → is_null (cursor_value job state) ≡ false
    → is_storable state ≡ false
unfolding cursor_value is_storable
cursor_value-not-storable job field state compares dated full =
    let is : cursor_value job state ≡ value_or_null (Dict.get job.schema.name (cursors_of state)) =
      ap (λ o. saved o state job.schema.name) compares in
    let full' = ap is_null (sym is) ∙ full in
    let bad =
      get-not-json job.schema.name (cursors_of state) full'
        (dated-is_json _ (ap is_dated (sym is) ∙ dated) full') in
    ground (arith, bad)

-- The rows at the end of a run that failed.
abbrev pub HasFailed : Connection → Outcome → Type 0
HasFailed conn o =
    (o.run_status ≡ failed) × (o.connection.status ≡ error) × (o.connection.state ≡ conn.state)

outcome-HasFailed :
    (env : Env) (conn : Connection) (r : Progress × Bool)
    → (r.1 ≡ true → is_storable r.0.state ≡ false)
    → HasFailed conn (outcome env conn r)
unfolding outcome
outcome-HasFailed env conn (p, false) bad = (refl, refl, refl)
outcome-HasFailed env conn (p, true) bad = rw (bad refl) (refl, refl, refl)

-- A run of an enabled connection with one stream chosen, which compares a field and has no cursor
-- yet: if the source, at whatever point it is read, yields times in this field, at least one and
-- else only nulls, then the run ends as failed, whether or not all rows were read and written, and
-- the connection shows an error and keeps the state it had, without a cursor.
pub run_batch_sync_fails :
    (env : Env) (only_streams : Option (List String)) (conn : Connection) (st : StreamDef)
    (field : String) (o : Outcome)
    → IsStrict env.greater
    → chosen only_streams conn.streams ≡ st ∷ []
    → compared (plan conn.table_prefix st) ≡ some field
    → cursor_value (plan conn.table_prefix st) conn.state ≡ null
    → ((calls : List Call)
        → AreDated field (
            marked
              (env.clock calls)
              (env.reading calls
                (plan conn.table_prefix st)
                (read_field (plan conn.table_prefix st))
                null).0))
    → run_batch_sync env only_streams conn ≡ some o
    → (o.run_status ≡ failed)
      × (o.connection.status ≡ error)
      × (o.connection.state ≡ conn.state)
      × (cursor_value (plan conn.table_prefix st) o.connection.state ≡ null)
unfolding run_batch_sync sync run_streams
run_batch_sync_fails env only_streams conn st field o strict one compares first dated e =
    let job = plan conn.table_prefix st in
    let namespace = conn.destination_namespace in
    let begun : Progress = started conn.state in
    let streams : Progress → Progress × Bool = λ p.
      run_streams env namespace (map (plan conn.table_prefix) (chosen only_streams conn.streams))
        p in
    let r : Progress × Bool = (begun, env.built) ⨾ streams in
    let bad : r.1 ≡ true → is_storable r.0.state ≡ false = λ passed.
      let (on, onward) = then_passed (begun, env.built) streams passed in
      let alone : streams begun
          ≡ run_stream env namespace job begun ⨾ run_streams env namespace [] =
        ap (λ l. run_streams env namespace (map (plan conn.table_prefix) l) begun) one in
      let whole = onward ∙ alone in
      let (passed', onward') =
        then_passed (run_stream env namespace job begun) (run_streams env namespace [])
          (ap (λ (x : Progress × Bool). x.1) (sym whole) ∙ passed) in
      let sees = run_stream-Sees env namespace job field begun strict compares passed' in
      let before = (prepare_table env namespace job (start_stream job begun)).0 in
      let rows =
        subst
          (λ c.
            AreDated field
              (marked (env.clock before.calls) (env.reading before.calls job (read_field job) c).0))
          (sym first) (dated before.calls) in
      let (is, full) = Sees-dated env.greater field _ _ _ (ap is_null first) rows sees in
      let ends = ap (λ (x : Progress × Bool). is_storable x.0.state) (whole ∙ onward') in
      ends ∙ cursor_value-not-storable job field _ compares is full in
    let fails = outcome-HasFailed env conn r bad in
    elim (Bool-cases conn.enabled) [
      | inl on ↦
          let same : outcome env conn r ≡ o = ground arith in
          let (run_failed, shows, keeps) = subst (HasFailed conn) same fails in
          (run_failed, shows, keeps, ap (cursor_value job) keeps ∙ first)
      | inr off ↦ absurd (ground arith)
    ]
