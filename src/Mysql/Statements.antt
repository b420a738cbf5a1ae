-- ===== src/Mysql/Statements.antt =====
-- MysqlDestination: the statements of its calls. The connection is kept between calls and commits
-- each statement on its own. A database answers a statement or a commit, or raises; what it keeps
-- of a statement that raised is its own affair. The placeholders' values stand beside the text. The
-- calls take the database that `_db` finds for their namespace.
use holypipe.Mysql.Types.{ddl_types}
use holypipe.Text.{concat, join, replace}
use holypipe.Models.{text, Column, StreamSchema, Value}
use holypipe.Prelude.{
  String, Bool, true, false, not, Option, none, some, List, [], ◌∷◌, ◌++◌, map, keep, contains,
  str_eq, if◌then◌else◌,
}
use holypipe.Dict
use holypipe.Connector.{meta_deleted, ddl_or_text, meta_op, meta_extracted_at}
use holypipe.Prelude.{◌⨾◌}
use holypipe.Dict.{Dict}

pub data Stmt : Type 0 where
  execute : String → List Value → Stmt
  executemany : String → List (List Value) → Stmt
  commit : Stmt

-- Whether a statement passes behind those that passed, which stand newest first.
abbrev pub Respond : Type 0
Respond = List Stmt → Stmt → Bool

abbrev pub perform : Respond → Stmt → List Stmt → List Stmt × Bool
perform respond stmt passed = if respond passed stmt then (stmt ∷ passed, true) else (passed, false)

-- Statements until one raises.
unfoldable pub perform_all : Respond → List Stmt → List Stmt → List Stmt × Bool
perform_all respond [] passed = (passed, true)
perform_all respond (stmt ∷ stmts) passed = perform respond stmt passed ⨾ perform_all respond stmts

-- f"`{s}`"
abbrev pub in_backticks : String → String
in_backticks s = concat ("`" ∷ s ∷ "`" ∷ [])

abbrev non_empty : Option String → Option String
non_empty none = none
non_empty (some s) = if str_eq s "" then none else some s

-- `_db`, with the "database" of the config.
abbrev pub db_of : Option String → Option String → String
db_of database namespace = elim (non_empty namespace) [
  | some given ↦ given
  | none ↦ elim (non_empty database) [ some given ↦ given | none ↦ "public" ]
]

-- `_quoted`
abbrev pub quoted_table : String → String → String
quoted_table db table = concat (in_backticks db ∷ "." ∷ in_backticks table ∷ [])

abbrev meta : Dict String
meta =
    (meta_extracted_at, "DATETIME")
    ∷ (meta_op, "VARCHAR(20)")
    ∷ (meta_deleted, "TINYINT(1) DEFAULT 0")
    ∷ []

abbrev typed_columns : StreamSchema → Dict String
typed_columns stream =
    map (λ (c : Column). (c.name, ddl_or_text (Dict.get c.type ddl_types))) stream.columns

abbrev column_def : String × String → String
column_def (name, ddl) = concat (in_backticks name ∷ " " ∷ ddl ∷ [])

-- `stream.column(p)`
abbrev column : String → List Column → Option Column
column name [] = none
column name (c ∷ columns) = if str_eq c.name name then some c else column name columns

abbrev type_or_string : Option Column → String
type_or_string none = "string"
type_or_string (some c) = c.type

-- The type of a key's column, which cannot be TEXT.
unfoldable pub key_ddl : StreamSchema → String → String
key_ddl stream p =
    let ddl = ddl_or_text (Dict.get (type_or_string (column p stream.columns)) ddl_types) in
    if str_eq ddl "TEXT" then "VARCHAR(255)" else ddl

-- The replacement for one column of the key in all definitions.
abbrev retyped : StreamSchema → String → List String → List String
retyped stream p defs =
    map
      (replace (concat (in_backticks p ∷ " TEXT" ∷ []))
        (concat (in_backticks p ∷ " " ∷ key_ddl stream p ∷ [])))
      defs

unfoldable pub retyped_all : StreamSchema → List String → List String → List String
unfolding key_ddl replace
retyped_all stream [] defs = defs
retyped_all stream (p ∷ pk) defs = retyped_all stream pk (retyped stream p defs)

abbrev key_def : List String → List String
key_def [] = []
key_def (p ∷ pk) = concat ("PRIMARY KEY (" ∷ join ", " (map in_backticks (p ∷ pk)) ∷ ")" ∷ []) ∷ []

-- The definitions of a new table.
unfoldable pub table_defs : StreamSchema → List String
unfolding retyped_all join
table_defs stream =
    retyped_all stream stream.primary_key (map column_def (typed_columns stream ++ meta))
    ++ key_def stream.primary_key

abbrev add_column : String → String → String × String → Stmt
add_column db table (name, ddl) =
    execute
      (concat (
        "ALTER TABLE "
        ∷ quoted_table db table
        ∷ " ADD COLUMN "
        ∷ in_backticks name
        ∷ " "
        ∷ ddl
        ∷ []))
      []

-- `existing` are the columns that the table has, none if it is not there.
unfoldable pub columns_stmts : List String → String → String → StreamSchema → List Stmt
unfolding table_defs join
columns_stmts [] db table stream =
    execute
      (concat (
        "CREATE TABLE IF NOT EXISTS "
        ∷ quoted_table db table
        ∷ " ("
        ∷ join ", " (table_defs stream)
        ∷ ") ENGINE=InnoDB DEFAULT CHARSET=utf8mb4"
        ∷ []))
      []
    ∷ []
columns_stmts (c ∷ existing) db table stream =
    map (add_column db table)
      (keep (λ d. not (contains (c ∷ existing) d.0)) (typed_columns stream ++ meta))

unfoldable pub prepare :
    Respond → List String → String → String → StreamSchema → List Stmt → List Stmt × Bool
unfolding columns_stmts perform_all
prepare respond existing db table stream passed =
    perform_all respond
      (execute
          (concat
            ("CREATE DATABASE IF NOT EXISTS " ∷ in_backticks db ∷ " CHARACTER SET utf8mb4" ∷ []))
          []
        ∷ execute
            "SELECT column_name FROM information_schema.columns WHERE table_schema = %s AND table_name = %s"
            (text db ∷ text table ∷ [])
        ∷ columns_stmts existing db table stream)
      passed
