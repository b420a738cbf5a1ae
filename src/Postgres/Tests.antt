-- ===== src/Postgres/Tests.antt =====
-- The theorems on the Postgres source at concrete inputs.
use holypipe.Prelude.{
  str_eq, if◌then◌else◌, ◌⊎◌, leb, length, false, ℕ, ◌≡◌, refl, String, true, Option, none, some,
  List, [], ◌∷◌, arith, Each,
}
use holypipe.Postgres.Types.{canonical}
use holypipe.Models.{bool, null, text, int}
use holypipe.Prelude.Int.{pos, negsuc}
use holypipe.Postgres.Rounds.{scan_columns_total}
use holypipe.Postgres.Delivery.{stream_changes-delivered, wanted_events, delivered}
use holypipe.Postgres.RoundTrip.{scan-print_columns}
use holypipe.Postgres.Stream.{quiet, message, Round, Settings, stream_changes}
use holypipe.Postgres.Decode.{lsn_to_str, parse_test_decoding}
use holypipe.Postgres.Scan.{scan_columns, scan}
use holypipe.Connector.{take_chars, bounded_name, Row}
use holypipe.Dict
use holypipe.Postgres.Setup.{Server, Replication, setup_cdc, teardown_cdc}
use holypipe.Postgres.Slots.{setup_cdc-teardown_cdc}
use holypipe.Postgres.Swaps.{
  Tables, renamed, removed, IsServer, AreApart, shown, IsSwapped, swap_in-IsSwapped,
}
use holypipe.Postgres.Removals.{swap_in}
use holypipe.Postgres.Statements.{execute, identifier, sql, Stmt, Handle, Respond}
use holypipe.Models.{StreamSchema}
use holypipe.Postgres.Print.{literal, plain, row_of, Field, IsField, print_columns}

-- No text is a float.
abbrev no_float : String → Option ℕ
no_float s = none

abbrev order_fields : List Field
order_fields =
    record { name = "id"; is_keyword = false; native = "integer"; shown = plain "-17" }
    ∷ record {
      name = "a \"b\"";
      is_keyword = false;
      native = "numeric[10,2]";
      shown = literal "it's";
    }
    ∷ record { name = "ok"; is_keyword = false; native = "boolean"; shown = plain "t" }
    ∷ []

order_fields-IsField : Each IsField order_fields
order_fields-IsField = ((refl, refl), ((refl, refl), ((refl, refl), tt)))

scan_columns_total_example :
    (row : Row) × (scan_columns no_float 40 " id[integer]:-17 \"x" [] ≡ some row)
    × (scan_columns no_float 41 " id[integer]:-17 \"x" [] ≡ some row)
scan_columns_total_example =
    scan_columns_total no_float 40 1 " id[integer]:-17 \"x" [] (omega arith)

scan-print_columns_example :
    scan no_float (print_columns order_fields) ≡ some (row_of no_float order_fields [])
scan-print_columns_example = scan-print_columns no_float order_fields order_fields-IsField

abbrev small : Settings
small = record { cdc_flush_records = 2; cdc_flush_seconds = 1000000 }

abbrev order_rounds : List Round
order_rounds =
    message "table public.orders: INSERT: id[integer]:1" 16 40 100
    ∷ message "table public.other: INSERT: id[integer]:2" 24 40 200
    ∷ quiet 48 300
    ∷ message "table public.orders: DELETE: id[integer]:1" 32 64 400
    ∷ []

stream_changes-delivered_example :
    let r =
      stream_changes small
        (parse_test_decoding no_float)
        ("public.orders" ∷ [])
        (λ hs. true)
        0
        none
        order_rounds
        500 in
    (r.1 ≡ true)
    × (delivered r.0.handed
        ≡ wanted_events (parse_test_decoding no_float) ("public.orders" ∷ []) order_rounds)
stream_changes-delivered_example =
    stream_changes-delivered small (parse_test_decoding no_float) ("public.orders" ∷ [])
      (λ hs. true) 0 none order_rounds 500 (λ hs. refl)

canonical-varchar : canonical "VARCHAR(20)" ≡ "string"
unfolding canonical
canonical-varchar = refl

canonical-array : canonical "int4[]" ≡ "integer"
unfolding canonical
canonical-array = refl

scan-quoted :
    scan (λ s. none) "id[integer]:-17 \"a b\"[numeric[10,2]]:'it''s' ok[boolean]:t z[text]:null"
    ≡ some (("id", int (negsuc 16)) ∷ ("a b", text "it's") ∷ ("ok", bool true) ∷ ("z", null) ∷ [])
unfolding scan_columns
scan-quoted = refl

lsn_to_str-both : lsn_to_str 94492280512 ≡ "16/2DC6C0"
unfolding lsn_to_str
lsn_to_str-both = refl

parse_test_decoding-update :
    parse_test_decoding
      (λ s. none)
      "BEGIN 7\ntable public.t: UPDATE: old-key: id[integer]:1 new-tuple: id[integer]:2 x[text]:'a'"
    ≡ record {
      stream = "public.t";
      op = "update";
      data_row = ("id", int (pos 2)) ∷ ("x", text "a") ∷ [];
      key = ("id", int (pos 1)) ∷ [];
    }
      ∷ []
unfolding parse_test_decoding scan_columns
parse_test_decoding-update = refl

-- A database that answers four statements of a transaction, and loses the answer to its commit.
abbrev failing : Respond
failing = record { answers = λ s stmt. leb (length s.pending) 3; keeps = λ s. true }

abbrev untouched : Handle
untouched = record { committed = []; pending = [] }

abbrev orders_schema : StreamSchema
orders_schema = record {
  name = "public.orders";
  table = "orders";
  namespace = some "public";
  columns = record { name = "id"; type = "integer"; nullable = false; native_type = "int4" } ∷ [];
  primary_key = "id" ∷ [];
}

abbrev order_row : Row
order_row = ("id", int (pos 1)) ∷ []

-- What the statements of a swap do, told by their pieces.
abbrev effect : Stmt → Tables String → Tables String
effect (execute (sql s ∷ identifier (at ∷ from ∷ []) ∷ sql r ∷ identifier (to ∷ []) ∷ []) values)
      tables =
    renamed from to tables
effect (execute (sql s ∷ identifier (at ∷ gone ∷ []) ∷ []) values) tables = removed gone tables
effect stmt tables = tables

abbrev two_tables : Tables String
two_tables name =
    if str_eq name "orders"
    then some "old rows"
    else if str_eq name "orders__hpswap"
    then some "new rows"
    else none

effect-IsServer : IsServer effect "public"
effect-IsServer = record {
  renames = λ from to tables. refl;
  drops = λ gone tables. refl;
  asks = λ table tables. refl;
}

orders-AreApart : AreApart "orders" "orders__hpswap"
unfolding bounded_name take_chars
orders-AreApart = record { shadow_old = refl; shadow_own = refl; own_old = refl }

swap_in-IsSwapped_example :
    let (t, passed) = swap_in failing true "public" "orders" "orders__hpswap" untouched in
    let before = shown effect untouched.committed two_tables in
    let now = shown effect t.committed two_tables in
    (t.pending ≡ [])
    × (((passed ≡ false) × (now ≡ before)) ⊎ IsSwapped true "orders" "orders__hpswap" before now)
swap_in-IsSwapped_example =
    swap_in-IsSwapped effect two_tables failing true "public" "orders" "orders__hpswap" untouched
      effect-IsServer orders-AreApart refl

-- A server without wal2json, and with another slot.
abbrev primary : Server
primary = record {
  wal_level = "logical";
  slots = ("other", "pgoutput") ∷ [];
  active = "other" ∷ [];
  plugins = "test_decoding" ∷ "pgoutput" ∷ [];
}

abbrev fresh : Replication
fresh = record { slot = none; plugin = none; lsn = none }

abbrev slot_state : Replication
slot_state = record { slot = some "hp"; plugin = some "test_decoding"; lsn = none }

abbrev with_slot : Server
with_slot = record primary { slots = ("other", "pgoutput") ∷ ("hp", "test_decoding") ∷ [] }

setup_cdc-teardown_cdc_example :
    (Dict.get "hp" with_slot.slots ≡ some "test_decoding")
    × (setup_cdc (some "hp") slot_state with_slot ≡ (some slot_state, with_slot))
    × (Dict.get "other" (teardown_cdc true slot_state with_slot).slots ≡ some "pgoutput")
unfolding setup_cdc
setup_cdc-teardown_cdc_example =
    setup_cdc-teardown_cdc (some "hp") fresh slot_state primary with_slot "other" refl refl
