-- ===== src/Sync/Tests.antt =====
-- The batch engine's theorems at concrete inputs.
use holypipe.Prelude.{
  inl, ℕ, ◌≡◌, ◌≢◌, refl, String, Bool, true, false, Option, none, some, [], ◌∷◌, arith, ltb,
}
use holypipe.Prelude.Int.{pos, negsuc}
use holypipe.Models.{
  Value, null, bool, int, float, text, time, bytes, StreamDef, Connection, idle, error, failed,
}
use holypipe.Connector.{with_meta, destination_table, Row}
use holypipe.Sync.{
  Job, Env, Progress, started, plan, chosen, cursor_value, run_stream, sync, outcome,
  run_batch_sync,
}
use holypipe.Sync.Cursors.{IsStrict, Sees, marked}
use holypipe.Sync.Streams.{run_stream-Sees}
use holypipe.Sync.Failures.{run_batch_sync_fails}

abbrev orders : String → StreamDef
orders mode = record {
  schema = record {
    name = "public.orders";
    table = "orders";
    namespace = some "public";
    columns =
        record { name = "id"; type = "integer"; nullable = false; native_type = "int4" }
        ∷ record { name = "seq"; type = "integer"; nullable = true; native_type = "int8" }
        ∷ [];
    primary_key = "id" ∷ [];
  };
  selected = true;
  sync_mode = mode;
  cursor_field = some "seq";
  primary_key = [];
  destination_table = none;
  columns = none;
}

-- Natural numbers compare, and nothing else does.
abbrev natural : Value → Option ℕ
natural null = none
natural (bool b) = none
natural (int (pos n)) = some n
natural (int (negsuc n)) = none
natural (float bits) = none
natural (text s) = none
natural (time t) = none
natural (bytes b) = none

abbrev above : Option ℕ → Option ℕ → Option Bool
above none o = none
above (some x) none = none
above (some x) (some y) = some (ltb y x)

abbrev greater : Value → Value → Option Bool
greater a b = above (natural a) (natural b)

above_irreflexive : (o : Option ℕ) → above o o ≢ some true
above_irreflexive none e = cc
above_irreflexive (some x) e = ground arith

above_transitive :
    (a b c : Option ℕ) → above a b ≡ some true → above b c ≡ some true → above a c ≡ some true
above_transitive none b c e f = cc
above_transitive (some x) none c e f = cc
above_transitive (some x) (some y) none e f = cc
above_transitive (some x) (some y) (some z) e f = ground arith

greater-IsStrict : IsStrict greater
greater-IsStrict = record {
  irreflexive = λ a. above_irreflexive (natural a);
  transitive = λ a b c. above_transitive (natural a) (natural b) (natural c);
}

abbrev row : ℕ → ℕ → Row
row id seq = ("id", int (pos id)) ∷ ("seq", int (pos seq)) ∷ []

abbrev env : Env
env = record {
  respond = λ calls. some 1;
  reading = λ calls job field cursor. ((row 1 5 ∷ row 2 9 ∷ []) ∷ (row 3 7 ∷ []) ∷ [], true);
  greater = greater;
  clock = λ calls. 100;
  built = true;
  message = "connection refused";
}

abbrev p : Progress
p = started (record { cursors = none; snapshot_done = false; position = [] })

abbrev job : Job
job = plan "copy_" (orders "incremental")

run_stream-Sees_example :
    Sees greater "seq"
      (marked 100 ((row 1 5 ∷ row 2 9 ∷ []) ∷ (row 3 7 ∷ []) ∷ []))
      null
      (cursor_value job (run_stream env none job p).0.state)
unfolding plan cursor_value run_stream
run_stream-Sees_example = run_stream-Sees env none job "seq" p greater-IsStrict refl refl

abbrev full : Job
full = plan "copy_" (orders "full_refresh")

abbrev conn : Connection
conn = record {
  id = "c";
  name = "c";
  source_id = "s";
  destination_id = "d";
  mode = "batch";
  schedule_type = "manual";
  interval_seconds = pos 60;
  cron_expression = none;
  enabled = true;
  destination_namespace = none;
  table_prefix = "copy_";
  group_id = none;
  streams = orders "incremental" ∷ orders "full_refresh" ∷ [];
  state = record { cursors = none; snapshot_done = false; position = [] };
  status = idle;
  status_detail = none;
  last_run_at = none;
  next_run_at = none;
}

abbrev by_time : Connection
by_time = record conn { streams = orders "incremental" ∷ [] }

abbrev dated_row : Row
dated_row = ("id", int (pos 1)) ∷ ("seq", time 7) ∷ []

-- One row, with a time in the compared field.
abbrev dated_env : Env
dated_env = record env { reading = λ calls job field cursor. ((dated_row ∷ []) ∷ [], true) }

run_batch_sync_fails_example :
    let o = outcome dated_env by_time (sync dated_env none by_time) in
    (o.run_status ≡ failed)
    × (o.connection.status ≡ error)
    × (o.connection.state ≡ by_time.state)
    × (cursor_value (plan "copy_" (orders "incremental")) o.connection.state ≡ null)
unfolding chosen plan cursor_value run_batch_sync marked
run_batch_sync_fails_example =
    run_batch_sync_fails dated_env none by_time (orders "incremental") "seq"
      (outcome dated_env by_time (sync dated_env none by_time)) greater-IsStrict refl refl refl
      (λ calls. record {
        dated = (refl, tt);
        at = with_meta 100 "read" dated_row;
        here = inl refl;
        given = refl;
      })
      refl
