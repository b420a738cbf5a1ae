-- ===== src/Mysql/Tests.antt =====
-- The theorems on MySQL at concrete inputs.
use holypipe.Connector.{bounded_name}
use holypipe.Prelude.Int.{pos}
use holypipe.Mysql.Delivery.{stream_changes-AllCovered, changes, delivered, AllCovered}
use holypipe.Mysql.Statements.{execute, Stmt, table_defs}
use holypipe.Mysql.Binlog.{
  update_rows, position_in, quiet, Handed, event, write_rows, BinlogEvent, Round, Settings,
  stream_changes,
}
use holypipe.Connector.Values.{int_value, str_value, DriverRow, Printers}
use holypipe.Models.{int, text, StreamSchema, Value}
use holypipe.Prelude.{
  not, all, if◌then◌else◌, str_eq, ◌≡◌, refl, ◌⊎◌, String, true, false, some, List, [], ◌∷◌, map,
  arith,
}
use holypipe.Mysql.Changes.{swap_in, old_name}
use holypipe.Mysql.Swaps.{after, swap_in_stuck, Names, IsServer, swap_again}
use holypipe.Mysql.Statements.{Respond, Stmt, execute, executemany, commit, table_defs}
use holypipe.Dict.{Dict}

abbrev orders : StreamSchema
orders = record {
  name = "shop.orders";
  table = "orders";
  namespace = some "shop";
  columns =
      record { name = "id"; type = "string"; nullable = false; native_type = "char" }
      ∷ record { name = "n"; type = "integer"; nullable = true; native_type = "int" }
      ∷ [];
  primary_key = "id" ∷ [];
}

-- No decimals, and no values that are printed.
abbrev printers : Printers
printers = record { float_of = λ s. 0; str_of = λ v. ""; dumps = λ v. "" }

abbrev settings : Settings
settings = record { cdc_flush_records = 2; cdc_flush_seconds = 1000000 }

abbrev row_of : String → DriverRow
row_of id = ("id", str_value id) ∷ ("n", int_value (pos 1)) ∷ []

abbrev insertion : String → String → BinlogEvent
insertion table id = record { schema = "shop"; table = table; rows = write_rows (row_of id ∷ []) }

-- The second event is of a table that is not wanted; the update moves a key.
abbrev binlog : List Round
binlog =
    event (insertion "orders" "a") "bin.1" 10 5
    ∷ event (insertion "carts" "x") "bin.1" 20 6
    ∷ event (insertion "orders" "b") "bin.1" 30 7
    ∷ quiet 8
    ∷ event
        (record {
          schema = "shop";
          table = "orders";
          rows = update_rows ((row_of "a", row_of "c") ∷ []);
        })
        "bin.2" 4 9
    ∷ []

abbrev stored : Dict Value
stored = ("log_file", text "bin.1") ∷ ("log_pos", int (pos 4)) ∷ []

stream_changes-positions :
    map
      (λ (h : Handed). h.position)
      (stream_changes settings printers (orders ∷ []) (λ hs. true) 0 stored binlog 9).0.handed
    ≡ record { log_file = text "bin.2"; log_pos = int (pos 4) }
      ∷ record { log_file = text "bin.1"; log_pos = int (pos 30) }
      ∷ []
unfolding stream_changes
stream_changes-positions = refl

stream_changes-AllCovered_example :
    let (s, passed) =
      stream_changes settings printers (orders ∷ []) (λ hs. true) 0 stored binlog 9 in
    AllCovered printers (orders ∷ []) (position_in stored) s.handed binlog
    × (((passed ≡ false) × (true ≡ false))
        ⊎ ((passed ≡ true) × (delivered s.handed ≡ changes printers (orders ∷ []) binlog)))
stream_changes-AllCovered_example =
    stream_changes-AllCovered settings printers (orders ∷ []) (λ hs. true) 0 stored binlog 9

-- A server on which no RENAME and no DROP passes once the old name is taken.
abbrev renamed_names : Names → Names
renamed_names names name = if str_eq name (old_name "orders") then names "orders" else names name

-- Here a query has values, and a statement without them that passes is a RENAME.
abbrev effect : Stmt → Names → Names
effect (execute sql []) names = renamed_names names
effect (execute sql (v ∷ values)) names = names
effect (executemany sql values) names = names
effect commit names = names

abbrev start_names : Names
start_names name = str_eq name "orders"

abbrev busy : Respond
busy passed (execute sql []) = not (after effect passed start_names (old_name "orders"))
busy passed (execute sql (v ∷ values)) = true
busy passed (executemany sql values) = false
busy passed commit = false

busy-IsServer : IsServer busy effect start_names "shop" "orders"
unfolding bounded_name
busy-IsServer = record {
  renames = λ shadow names. refl;
  asks = λ names. refl;
  answers = λ passed. refl;
  refuses = λ shadow passed taken. ground (arith, taken);
}

swap_in_stuck_example :
    let (stuck, swapped) = swap_in busy true "shop" "orders" "orders__hpswap" [] in
    (swapped ≡ false)
    × (all not (swap_again busy "shop" "orders" ("orders__hpswap" ∷ "other" ∷ []) stuck).1 ≡ true)
    × (after effect
          (swap_again busy "shop" "orders" ("orders__hpswap" ∷ "other" ∷ []) stuck).0
          start_names
        ≡ after effect stuck start_names)
    × (after effect stuck start_names (old_name "orders") ≡ true)
unfolding swap_in after bounded_name
swap_in_stuck_example =
    swap_in_stuck busy effect start_names "shop" "orders" "orders__hpswap"
      ("orders__hpswap" ∷ "other" ∷ []) [] busy-IsServer refl refl refl

table_defs-key :
    table_defs orders
    ≡ "`id` VARCHAR(255)" ∷ "`n` BIGINT" ∷ "`_hp_extracted_at` DATETIME" ∷ "`_hp_op` VARCHAR(20)"
      ∷ "`_hp_deleted` TINYINT(1) DEFAULT 0" ∷ "PRIMARY KEY (`id`)" ∷ []
unfolding table_defs
table_defs-key = refl
