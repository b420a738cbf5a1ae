-- ===== src/Cdc/Tests.antt =====
-- The CDC worker's theorems at concrete inputs.
use holypipe.Prelude.{In, ◌≡◌, refl, true, false, ◌⊎◌, none, some, List, [], ◌∷◌, ◌++◌}
use holypipe.Prelude.Int.{pos}
use holypipe.Models.{int, text, StreamSchema, State, Connection, idle}
use holypipe.Connector.{all_columns, Row, ChangeEvent, Respond, write, delete, upsert}
use holypipe.Cdc.{
  Worker, Streams, Batch, apply_stream, on_batches, upserts, deletes, write_upserts, delete_rows,
}
use holypipe.Cdc.Lifecycle.{finished, Env, Finished, run, stream_all}
use holypipe.Cdc.Batches.{IsBehind, advance, on_batches-IsBehind}
use holypipe.Cdc.Taken.{taken_batches}
use holypipe.Cdc.Order.{row_of, delete_wins}
use holypipe.Cdc.Runs.{Spaced, run-Spaced}

abbrev orders : StreamSchema
orders = record {
  name = "public.orders";
  table = "orders";
  namespace = some "public";
  columns =
      record { name = "id"; type = "integer"; nullable = false; native_type = "int4" }
      ∷ record { name = "note"; type = "string"; nullable = true; native_type = "text" }
      ∷ [];
  primary_key = "id" ∷ [];
}

abbrev removal : ChangeEvent
removal = record {
  stream = "public.orders";
  op = "delete";
  data_row = [];
  key = ("id", int (pos 1)) ∷ [];
}

abbrev insertion : ChangeEvent
insertion = record {
  stream = "public.orders";
  op = "insert";
  data_row = ("id", int (pos 1)) ∷ ("note", text "again") ∷ [];
  key = ("id", int (pos 1)) ∷ [];
}

-- Every call is answered, but for the fourth.
abbrev answers : Respond
answers (a ∷ b ∷ c ∷ d ∷ []) = none
answers calls = some 1

abbrev state : State
state = record { cursors = none; snapshot_done = true; position = [] }

abbrev fresh : Worker
fresh = record {
  totals = record { read = 0; written = 0; deleted = 0 };
  calls = [];
  state = state;
  stored = some state;
  last_persist = 0;
}

abbrev streams : Streams
streams = ("public.orders", (orders, "copy_orders")) ∷ []

delete_wins_example :
    (rows : List Row) × (keys : List Row) × ((apply_stream answers 9 "copy_orders" orders
        (removal ∷ insertion ∷ [])
        fresh).0.calls
      ≡ delete "copy_orders" none ("id" ∷ []) keys true
        ∷ write "copy_orders" none (all_columns orders) rows ("id" ∷ []) upsert
        ∷ [])
    × In (row_of 9 orders insertion) rows
    × In (("id", int (pos 1)) ∷ []) keys
unfolding apply_stream write_upserts delete_rows upserts deletes
delete_wins_example =
    delete_wins answers 9 "copy_orders" orders fresh "id" [] removal insertion [] [] [] refl refl
      refl refl

abbrev batches : List Batch
batches =
    record { events = insertion ∷ []; position = ("lsn", int (pos 5)) ∷ []; at = 9 }
    ∷ record { events = removal ∷ []; position = ("lsn", int (pos 6)) ∷ []; at = 10 }
    ∷ []

on_batches-IsBehind_example :
    IsBehind state
      ([] ++ taken_batches answers streams batches fresh.calls)
      (on_batches answers streams batches fresh).0
    × (((on_batches answers streams batches fresh).1 ≡ false)
        ⊎ (taken_batches answers streams batches fresh.calls ≡ batches))
unfolding advance
on_batches-IsBehind_example =
    on_batches-IsBehind answers streams state [] batches fresh
      (record { past = []; ahead = []; splits = refl; saved = refl; held = refl })

abbrev conn : Connection
conn = record {
  id = "c";
  name = "c";
  source_id = "s";
  destination_id = "d";
  mode = "cdc";
  schedule_type = "manual";
  interval_seconds = pos 60;
  cron_expression = none;
  enabled = true;
  destination_namespace = some "warehouse";
  table_prefix = "copy_";
  group_id = none;
  streams =
      record {
        schema = orders;
        selected = true;
        sync_mode = "incremental";
        cursor_field = none;
        primary_key = [];
        destination_table = none;
        columns = none;
      }
      ∷ [];
  state = state;
  status = idle;
  status_detail = none;
  last_run_at = none;
  next_run_at = none;
}

abbrev env : Env
env = record {
  built = true;
  setup = λ st. some st;
  reading = λ schema. ([], true);
  changes = batches;
  ended = true;
  stopped = true;
  now = 11;
}

abbrev end : Finished
end = finished env.stopped (stream_all answers env conn fresh)

run-Spaced_example : Spaced (some "warehouse") end.worker.calls
unfolding run
run-Spaced_example = run-Spaced answers env conn fresh end refl refl
