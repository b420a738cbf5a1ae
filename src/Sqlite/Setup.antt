-- ===== src/Sqlite/Setup.antt =====
-- SqliteDestination.prepare and SqliteSource.setup_cdc. The white space within a statement is one
-- space, where the code's texts go over several lines.
use holypipe.Text.{concat, join}
use holypipe.Prelude.{
  String, Bool, true, false, not, Option, none, some, List, [], ◌∷◌, ◌++◌, map, keep, contains, ◌⨾◌,
}
use holypipe.Sqlite.Types.{cdc_log_table}
use holypipe.Sqlite.Statements.{Stmt, Handle, Respond, execute, perform, in_quotes}
use holypipe.Connector.{ddl_or_text, meta_extracted_at, meta_op, meta_deleted, column_names}
use holypipe.Models.{StreamSchema, Column, Value, int}
use holypipe.Prelude.Int.{pos}
use holypipe.Dict
use holypipe.Dict.{Dict}

-- DDL_TYPES
abbrev pub ddl_types : Dict String
ddl_types =
    ("string", "TEXT")
    ∷ ("integer", "INTEGER")
    ∷ ("number", "REAL")
    ∷ ("boolean", "INTEGER")
    ∷ ("timestamp", "TEXT")
    ∷ ("date", "TEXT")
    ∷ ("time", "TEXT")
    ∷ ("json", "TEXT")
    ∷ ("binary", "BLOB")
    ∷ []

-- `(c.name, DDL_TYPES.get(c.type, "TEXT"))` for the columns, and `meta`.
unfoldable pub wanted_columns : StreamSchema → Dict String
wanted_columns stream =
    map (λ (c : Column). (c.name, ddl_or_text (Dict.get c.type ddl_types))) stream.columns
    ++ (meta_extracted_at, "TEXT") ∷ (meta_op, "TEXT") ∷ (meta_deleted, "INTEGER DEFAULT 0") ∷ []

abbrev column_def : String × String → String
column_def (name, ddl) = concat (in_quotes name ∷ " " ∷ ddl ∷ [])

abbrev key_def : List String → List String
key_def [] = []
key_def (p ∷ pk) = concat ("PRIMARY KEY (" ∷ join ", " (map in_quotes (p ∷ pk)) ∷ ")" ∷ []) ∷ []

unfoldable pub create_table : String → StreamSchema → Stmt
unfolding join wanted_columns
create_table table stream = execute (
    concat (
      "CREATE TABLE IF NOT EXISTS "
      ∷ in_quotes table
      ∷ " ("
      ∷ join ", " (map column_def (wanted_columns stream) ++ key_def stream.primary_key)
      ∷ ")"
      ∷ []))

abbrev add_column : String → String × String → Stmt
add_column table (name, ddl) =
    execute
      (concat ("ALTER TABLE " ∷ in_quotes table ∷ " ADD COLUMN " ∷ in_quotes name ∷ " " ∷ ddl ∷ []))

-- `existing` are the columns that the table has, none if it is not there.
unfoldable pub prepare_stmts : List String → String → StreamSchema → List Stmt
unfolding create_table wanted_columns
prepare_stmts [] table stream = create_table table stream ∷ []
prepare_stmts (c ∷ existing) table stream =
    map (add_column table) (keep (λ d. not (contains (c ∷ existing) d.0)) (wanted_columns stream))

-- Statements that are executed one after another, until one raises.
unfoldable pub perform_all : Respond → List Stmt → Handle → Handle × Bool
perform_all respond [] s = (s, true)
perform_all respond (stmt ∷ stmts) s = perform respond stmt s ⨾ perform_all respond stmts

unfoldable pub prepare : Respond → List String → String → StreamSchema → Handle → Handle × Bool
unfolding prepare_stmts perform_all
prepare respond existing table stream s =
    perform_all respond (prepare_stmts existing table stream) s

abbrev create_log : Stmt
create_log = execute (
    concat (
      "CREATE TABLE IF NOT EXISTS " ∷ cdc_log_table
      ∷ " ( id INTEGER PRIMARY KEY AUTOINCREMENT, table_name TEXT NOT NULL, op TEXT NOT NULL,"
      ∷ " row_json TEXT NOT NULL, ts TEXT DEFAULT CURRENT_TIMESTAMP )" ∷ []))

-- `json_obj` and `json_obj_old`, of NEW or OLD.
abbrev json_pairs : String → List String → String
json_pairs row columns =
    join ", " (map (λ c. concat ("'" ∷ c ∷ "', " ∷ row ∷ "." ∷ in_quotes c ∷ [])) columns)

-- A trigger: its suffix, its event, the operation that it logs, and NEW or OLD.
abbrev create_trigger : StreamSchema → String → String → String → String → Stmt
create_trigger stream suffix event op row = execute (
    concat (
      "CREATE TRIGGER IF NOT EXISTS _hp_trg_"
      ∷ stream.table
      ∷ "_"
      ∷ suffix
      ∷ " AFTER "
      ∷ event
      ∷ " ON "
      ∷ in_quotes stream.table
      ∷ " BEGIN INSERT INTO "
      ∷ cdc_log_table
      ∷ " (table_name, op, row_json) VALUES ('"
      ∷ stream.table
      ∷ "', '"
      ∷ op
      ∷ "', json_object("
      ∷ json_pairs row (column_names stream)
      ∷ ")); END;"
      ∷ []))

unfoldable pub trigger_stmts : List StreamSchema → List Stmt
unfolding join
trigger_stmts [] = []
trigger_stmts (stream ∷ streams) =
    create_trigger stream "ins" "INSERT" "insert" "NEW"
    ∷ create_trigger stream "upd" "UPDATE" "update" "NEW"
    ∷ create_trigger stream "del" "DELETE" "delete" "OLD"
    ∷ trigger_stmts streams

-- `state.setdefault("last_id", 0)`
abbrev with_last_id : Option Value → Dict Value → Dict Value
with_last_id none position = Dict.put "last_id" (int (pos 0)) position
with_last_id (some v) position = position

abbrev set_up : Dict Value → Handle × Bool → Handle × Option (Dict Value)
set_up position (s, true) = (s, some (with_last_id (Dict.get "last_id" position) position))
set_up position (s, false) = (s, none)

-- `setup_cdc`, on the connection's stored position.
unfoldable pub setup_cdc :
    Respond → List StreamSchema → Dict Value → Handle → Handle × Option (Dict Value)
unfolding trigger_stmts perform_all
setup_cdc respond streams position s =
    set_up position (perform_all respond (create_log ∷ trigger_stmts streams) s)
