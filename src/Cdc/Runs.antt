-- ===== src/Cdc/Runs.antt =====
-- What a run of the worker leaves behind, and where it writes.
use holypipe.Prelude.{
  ◌⨾◌, keep, sym, ℕ, ◌≡◌, refl, String, Bool, true, false, ◌⊎◌, inl, inr, Option, none, some, List,
  [], ◌∷◌, arith, Bool-cases, Option-cases, if◌then◌else◌, length, map,
}
use mathlib.Core.Path.{subst}
use holypipe.Dict
use holypipe.Dict.{Dict}
use holypipe.Models.{StreamSchema, StreamDef, idle, error, success, failed, cancelled, Connection}
use holypipe.Connector.{
  with_meta, all_columns, Row, ChangeEvent, Call, prepare, write, delete, truncate, swap_in,
  Respond, write_mode,
}
use holypipe.Cdc.{
  called, answer, Worker, Streams, Batch, upserts, deletes, write_upserts, delete_rows, delete_by,
  after_write, after_delete, apply_stream, apply_known, apply_groups, apply_batch, persist_state,
  move_position, group, on_batch, on_batches,
}
use holypipe.Cdc.Lifecycle.{
  prepared, stream_schema, stream_table, Env, Finished, tried, prepare_streams, snapshot_batch,
  snapshot_batches, initial_snapshot, setup_step, mark_snapshot, snapshot_step, stream_all,
  finished, run,
}

-- The outcome of a finished run: its row is no longer running nor its connection streaming, and
-- the connection shows an error exactly if the run failed; only a stop cancels.
run_status :
    (respond : Respond) (env : Env) (conn : Connection) (w : Worker) (f : Finished)
    → run respond env conn w ≡ some f
    → ((f.run_status ≡ failed) × (f.status ≡ error))
      ⊎ ((f.run_status ≡ (if env.stopped then cancelled else success)) × (f.status ≡ idle))
unfolding run
run_status respond env conn w f e = elim (Bool-cases (stream_all respond env conn w).1) [
  | inl passed ↦ ground arith
  | inr raised ↦ ground arith
]

-- Tables are prepared in one namespace, and rows are written and deleted in none.
abbrev pub Spaced : Option String → List Call → Type 0
Spaced ns [] = Unit
Spaced ns (prepare table n schema ∷ calls) = (n ≡ ns) × Spaced ns calls
Spaced ns (write table n columns rows pk mode ∷ calls) = (n ≡ none) × Spaced ns calls
Spaced ns (delete table n pk keys soft ∷ calls) = (n ≡ none) × Spaced ns calls
Spaced ns (truncate table n ∷ calls) = ⊥
Spaced ns (swap_in table n shadow ∷ calls) = ⊥

module _ (ns : Option String) (respond : Respond) where
  abbrev Keeps : (Worker → Worker × Bool) → Type 0
  Keeps m = (w : Worker) → Spaced ns w.calls → Spaced ns (m w).0.calls

  then-Keeps :
      (r : Worker × Bool) (k : Worker → Worker × Bool)
      → Spaced ns r.0.calls
      → Keeps k
      → Spaced ns (r ⨾ k).0.calls
  then-Keeps (w, true) k h kept = kept w h
  then-Keeps (w, false) k h kept = h

  write_upserts-Spaced :
      (table : String) (schema : StreamSchema) (rows : List Row) (w : Worker)
      → Spaced ns w.calls
      → Spaced ns (write_upserts respond table schema rows w).1.calls
  unfolding write_upserts
  write_upserts-Spaced table schema [] w h = h
  write_upserts-Spaced table schema (row ∷ rows) w h = (refl, h)

  delete_by-Spaced :
      (table : String) (pk : List String) (keys : List Row) (w : Worker)
      → Spaced ns w.calls
      → Spaced ns (delete_by respond table pk keys w).1.calls
  delete_by-Spaced table [] keys w h = h
  delete_by-Spaced table (p ∷ pk) [] w h = h
  delete_by-Spaced table (p ∷ pk) (key ∷ keys) w h = (refl, h)

  after_delete-Spaced :
      (read written : ℕ) (r : Option ℕ × Worker)
      → Spaced ns r.1.calls
      → Spaced ns (after_delete read written r).0.calls
  after_delete-Spaced read written (none, w) h = h
  after_delete-Spaced read written (some n, w) h = h

  after_write-Spaced :
      (table : String) (schema : StreamSchema) (evs : List ChangeEvent) (r : Option ℕ × Worker)
      → Spaced ns r.1.calls
      → Spaced ns (after_write respond table schema evs r).0.calls
  unfolding delete_rows
  after_write-Spaced table schema evs (none, w) h = h
  after_write-Spaced table schema evs (some n, w) h =
      after_delete-Spaced (length evs) n _
        (delete_by-Spaced table schema.primary_key (deletes evs) w h)

  apply_known-Spaced :
      (now : ℕ) (known : Option (StreamSchema × String)) (evs : List ChangeEvent)
      → Keeps (apply_known respond now known evs)
  unfolding apply_stream
  apply_known-Spaced now none evs w h = h
  apply_known-Spaced now (some (schema, table)) evs w h =
      after_write-Spaced table schema evs _
        (write_upserts-Spaced table schema (upserts now schema evs) w h)

  apply_groups-Spaced :
      (now : ℕ) (streams : Streams) (groups : Dict (List ChangeEvent))
      → Keeps (apply_groups respond now streams groups)
  unfolding apply_groups
  apply_groups-Spaced now streams [] w h = h
  apply_groups-Spaced now streams ((name, evs) ∷ groups) w h =
      let known = Dict.get name streams in
      let one = apply_known-Spaced now known evs w h in
      let rest =
        apply_groups-Spaced now streams groups (apply_known respond now known evs w).0 one in
      elim (Bool-cases (apply_known respond now known evs w).1) [
        | inl passed ↦ rw passed rest
        | inr raised ↦ rw raised one
      ]

  persist-Spaced :
      (force : Bool) (now : ℕ) (w : Worker)
      → Spaced ns w.calls
      → Spaced ns (persist_state force now w).calls
  unfolding persist_state
  persist-Spaced force now w h = ground arith

  on_batch-Spaced : (streams : Streams) (batch : Batch) → Keeps (on_batch respond streams batch)
  unfolding on_batch apply_batch
  on_batch-Spaced streams batch w h =
      let groups = group [] batch.events in
      let w' = (apply_groups respond batch.at streams groups w).0 in
      let one = apply_groups-Spaced batch.at streams groups w h in
      elim (Bool-cases (apply_groups respond batch.at streams groups w).1) [
        | inl passed ↦ rw passed (
            persist-Spaced false batch.at (move_position batch.position w')
              (unfold move_position in one))
        | inr raised ↦ rw raised one
      ]

  on_batches-Spaced :
      (streams : Streams) (batches : List Batch) → Keeps (on_batches respond streams batches)
  unfolding on_batches
  on_batches-Spaced streams [] w h = h
  on_batches-Spaced streams (batch ∷ batches) w h =
      let one = on_batch-Spaced streams batch w h in
      let rest = on_batches-Spaced streams batches (on_batch respond streams batch w).0 one in
      elim (Bool-cases (on_batch respond streams batch w).1) [
        | inl passed ↦ rw passed rest
        | inr raised ↦ rw raised one
      ]

  tried-calls : (o : Option ℕ) (w : Worker) → Spaced ns w.calls → Spaced ns (tried o w).0.calls
  tried-calls none w h = h
  tried-calls (some n) w h = h

  prepare_streams-Spaced :
      (prefix : String) (defs : List StreamDef) → Keeps (prepare_streams respond prefix ns defs)
  unfolding prepare_streams
  prepare_streams-Spaced prefix [] w h = h
  prepare_streams-Spaced prefix (st ∷ defs) w h =
      let call = prepare (stream_table prefix st) ns (stream_schema st) in
      then-Keeps _ _ (tried-calls (answer respond call w) (called call w) (refl, h))
        (prepare_streams-Spaced prefix defs)

  snapshot_batch-Spaced :
      (now : ℕ) (table : String) (schema : StreamSchema) (batch : List Row)
      → Keeps (snapshot_batch respond now table schema batch)
  unfolding snapshot_batch
  snapshot_batch-Spaced now table schema batch w h =
      let call =
        write table none (all_columns schema) (map (with_meta now "snapshot") batch)
          schema.primary_key (write_mode schema.primary_key) in
      then-Keeps _ _ (tried-calls (answer respond call w) (called call w) (refl, h)) (λ w' h'. h')

  snapshot_batches-Spaced :
      (now : ℕ) (table : String) (schema : StreamSchema) (batches : List (List Row)) (ended : Bool)
      → Keeps (snapshot_batches respond now table schema batches ended)
  unfolding snapshot_batches
  snapshot_batches-Spaced now table schema [] ended w h = h
  snapshot_batches-Spaced now table schema (batch ∷ batches) ended w h =
      then-Keeps _ _ (snapshot_batch-Spaced now table schema batch w h)
        (snapshot_batches-Spaced now table schema batches ended)

  initial_snapshot-Spaced :
      (env : Env) (streams : Streams) → Keeps (initial_snapshot respond env streams)
  unfolding initial_snapshot
  initial_snapshot-Spaced env [] w h = h
  initial_snapshot-Spaced env ((name, (schema, table)) ∷ streams) w h =
      then-Keeps _ _
        (snapshot_batches-Spaced env.now table schema (env.reading schema).0 (env.reading schema).1
          w h)
        (initial_snapshot-Spaced env streams)

  setup-Spaced : (env : Env) → Keeps (setup_step env)
  unfolding setup_step
  setup-Spaced env w h = elim (Option-cases (env.setup w.state)) [
    | inl raised ↦ rw (raised, setup_step) h
    | inr (state, e) ↦ rw (e, setup_step) h
  ]

  either-Spaced :
      (b : Bool) (r r' : Worker × Bool)
      → Spaced ns r.0.calls
      → Spaced ns r'.0.calls
      → Spaced ns (if b then r else r').0.calls
  either-Spaced true r r' h h' = h
  either-Spaced false r r' h h' = h'

  snapshot_step-Spaced : (env : Env) (streams : Streams) → Keeps (snapshot_step respond env streams)
  unfolding snapshot_step
  snapshot_step-Spaced env streams w h = either-Spaced w.state.snapshot_done _ _ h (
      then-Keeps (initial_snapshot respond env streams w) (mark_snapshot env)
        (initial_snapshot-Spaced env streams w h)
        (λ w' h'.
          persist-Spaced true env.now
            (record w' { state = record w'.state { snapshot_done = true } }) h'))

  stream_all-Spaced :
      (env : Env) (conn : Connection) (w : Worker)
      → conn.destination_namespace ≡ ns
      → Spaced ns w.calls
      → Spaced ns (stream_all respond env conn w).0.calls
  unfolding stream_all
  stream_all-Spaced env conn w e h =
      let defs = keep (λ st. st.selected) conn.streams in
      let streams = prepared conn.table_prefix defs [] in
      let preparing = prepare_streams respond conn.table_prefix conn.destination_namespace defs in
      let r0 = (w, env.built) ⨾ preparing in
      let r1 = r0 ⨾ setup_step env in
      let r2 = r1 ⨾ snapshot_step respond env streams in
      let r3 = r2 ⨾ on_batches respond streams env.changes in
      let ends : Worker → Worker × Bool = λ w'. (w', env.ended) in
      let persists : Worker → Worker × Bool = λ w'. (persist_state true env.now w', true) in
      let h0 =
        then-Keeps (w, env.built) preparing h
          (subst (λ n. Keeps (prepare_streams respond conn.table_prefix n defs)) (sym e)
            (prepare_streams-Spaced conn.table_prefix defs)) in
      let h1 = then-Keeps r0 (setup_step env) h0 (setup-Spaced env) in
      let h2 =
        then-Keeps r1 (snapshot_step respond env streams) h1 (snapshot_step-Spaced env streams) in
      let h3 =
        then-Keeps r2 (on_batches respond streams env.changes) h2
          (on_batches-Spaced streams env.changes) in
      then-Keeps (r3 ⨾ ends) persists (then-Keeps r3 ends h3 (λ w' h'. h'))
        (λ w' h'. persist-Spaced true env.now w' h')

finished-worker : (stopped : Bool) (r : Worker × Bool) → (finished stopped r).worker ≡ r.0
finished-worker stopped (w, true) = refl
finished-worker stopped (w, false) = refl

run-worker :
    (respond : Respond) (env : Env) (conn : Connection) (w : Worker) (f : Finished)
    → run respond env conn w ≡ some f
    → (stream_all respond env conn w).0 ≡ f.worker
unfolding run
run-worker respond env conn w f e =
    let ends = finished-worker env.stopped (stream_all respond env conn w) in
    elim (Bool-cases conn.enabled) [ inl on ↦ ground arith | inr off ↦ ground arith ]

-- In every run, failed or not, tables are prepared in the connection's destination namespace,
-- but rows are written and deleted with no namespace, and no call truncates or swaps a table.
pub run-Spaced :
    (respond : Respond) (env : Env) (conn : Connection) (w : Worker) (f : Finished)
    → w.calls ≡ []
    → run respond env conn w ≡ some f
    → Spaced conn.destination_namespace f.worker.calls
unfolding run
run-Spaced respond env conn w f none_yet e =
    subst (λ v. Spaced conn.destination_namespace v.calls) (run-worker respond env conn w f e)
      (stream_all-Spaced conn.destination_namespace respond env conn w refl
        (subst (Spaced conn.destination_namespace) (sym none_yet) tt))
