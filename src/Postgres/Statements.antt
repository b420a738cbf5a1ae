-- ===== src/Postgres/Statements.antt =====
-- PostgresDestination: the statements of its calls, as psycopg2 composes them of raw SQL and
-- identifiers. The connection is kept between calls; `with conn` ends its transaction, by a
-- rollback if the body raises. A database answers a statement or a commit, or raises; a commit that
-- raised may have taken effect. The calls take
-- the schema that `_schema` finds for their namespace.
use holypipe.Postgres.Types.{ddl_types}
use holypipe.Connector.{
  ddl_or_text, values_of, append, upsert, meta_deleted, meta_op, Row, WriteMode, meta_extracted_at,
}
use holypipe.Models.{Column, text, StreamSchema, Value}
use holypipe.Prelude.{
  ℕ, String, Bool, true, false, not, Option, none, some, List, [], ◌∷◌, ◌++◌, map, keep, contains,
  length, str_eq, if◌then◌else◌,
}
use holypipe.Dict
use holypipe.Dict.{Dict}

pub data Piece : Type 0 where
  sql : String → Piece
  identifier : List String → Piece

abbrev pub Composed : Type 0
Composed = List Piece

-- The values of the placeholders stand beside the statement.
pub data Stmt : Type 0 where
  execute : Composed → List Value → Stmt
  executemany execute_values : Composed → List (List Value) → Stmt
  commit : Stmt

-- What a reader of the database can see, and what waits for the commit, newest first.
pub record Handle : Type 0 where
  pub committed : List Stmt
  pub pending : List Stmt

-- Whether a statement or a commit is answered, and whether a commit that raised had taken effect
-- when its answer was lost.
pub record Respond : Type 0 where
  pub answers : Handle → Stmt → Bool
  pub keeps : Handle → Bool

-- Statements until one raises.
unfoldable pub perform_all : Respond → List Stmt → Handle → Handle × Bool
perform_all respond [] s = (s, true)
perform_all respond (stmt ∷ stmts) s =
    let rest = perform_all respond stmts (record s { pending = stmt ∷ s.pending }) in
    if respond.answers s stmt then rest else (s, false)

abbrev pub committed_all : Handle → Handle
committed_all s = record { committed = s.pending ++ s.committed; pending = [] }

abbrev pub rolled_back : Handle → Handle
rolled_back s = record s { pending = [] }

-- The end of `with conn`.
abbrev pub end_with : Respond → Handle × Bool → Handle × Bool
end_with respond (s, true) =
    if respond.answers s commit
    then (committed_all s, true)
    else (if respond.keeps s then committed_all s else rolled_back s, false)
end_with respond (s, false) = (rolled_back s, false)

unfoldable pub transact : Respond → List Stmt → Handle → Handle × Bool
unfolding perform_all
transact respond stmts s = end_with respond (perform_all respond stmts s)

-- `sql.SQL(sep).join(...)`
unfoldable pub join_sql : String → List Composed → Composed
join_sql sep [] = []
join_sql sep (c ∷ []) = c
join_sql sep (c ∷ d ∷ ds) = c ++ sql sep ∷ join_sql sep (d ∷ ds)

abbrev pub name_of : String → Composed
name_of name = identifier (name ∷ []) ∷ []

-- `s or ...`
abbrev non_empty : Option String → Option String
non_empty none = none
non_empty (some s) = if str_eq s "" then none else some s

-- `_schema`, with the "schema" of the config.
abbrev pub schema_of : Option String → Option String → String
schema_of config_schema namespace = elim (non_empty namespace) [
  | some given ↦ given
  | none ↦ elim (non_empty config_schema) [ some given ↦ given | none ↦ "public" ]
]

-- `_rel`
abbrev pub rel : String → String → Composed
rel schema table = identifier (schema ∷ table ∷ []) ∷ []

abbrev add_meta : Dict String
add_meta =
    (meta_extracted_at, "TIMESTAMP")
    ∷ (meta_op, "TEXT")
    ∷ (meta_deleted, "BOOLEAN DEFAULT FALSE")
    ∷ []

-- `(c.name, DDL_TYPES.get(c.type, "TEXT"))` for the columns, and `meta`.
unfoldable pub wanted_columns : StreamSchema → Dict String
wanted_columns stream =
    map (λ (c : Column). (c.name, ddl_or_text (Dict.get c.type ddl_types))) stream.columns
    ++ add_meta

abbrev column_def : String × String → Composed
column_def (name, ddl) = name_of name ++ sql " " ∷ sql ddl ∷ []

abbrev key_def : List String → List Composed
key_def [] = []
key_def (p ∷ pk) = (sql "PRIMARY KEY (" ∷ join_sql ", " (map name_of (p ∷ pk)) ++ sql ")" ∷ []) ∷ []

-- `existing` are the columns that the table has, none if it is not there.
unfoldable pub columns_stmts : List String → String → String → StreamSchema → List Stmt
unfolding wanted_columns join_sql
columns_stmts [] schema table stream =
    execute
      (sql "CREATE TABLE IF NOT EXISTS " ∷ rel schema table
        ++ sql " ("
          ∷ join_sql ", " (map column_def (wanted_columns stream) ++ key_def stream.primary_key)
        ++ sql ")" ∷ [])
      []
    ∷ []
columns_stmts (c ∷ existing) schema table stream =
    map
      (λ ((name, ddl) : String × String).
        execute
          (sql "ALTER TABLE " ∷ rel schema table
            ++ sql " ADD COLUMN " ∷ name_of name
            ++ sql " " ∷ sql ddl ∷ [])
          [])
      (keep (λ d. not (contains (c ∷ existing) d.0)) (wanted_columns stream))

-- The query of `existing` is a statement too.
unfoldable pub prepare_stmts : List String → String → String → StreamSchema → List Stmt
unfolding columns_stmts
prepare_stmts existing schema table stream =
    execute (sql "CREATE SCHEMA IF NOT EXISTS " ∷ name_of schema) []
    ∷ execute
        (sql
            "SELECT column_name FROM information_schema.columns WHERE table_schema = %s AND table_name = %s"
          ∷ [])
        (text schema ∷ text table ∷ [])
    ∷ columns_stmts existing schema table stream

unfoldable pub prepare :
    Respond → List String → String → String → StreamSchema → Handle → Handle × Bool
unfolding transact prepare_stmts
prepare respond existing schema table stream s =
    transact respond (prepare_stmts existing schema table stream) s

abbrev set_excluded : String → Composed
set_excluded c = name_of c ++ sql " = EXCLUDED." ∷ name_of c

abbrev action : List String → Composed
action [] = sql "DO NOTHING" ∷ []
action (c ∷ updatable) = sql "DO UPDATE SET " ∷ join_sql ", " (map set_excluded (c ∷ updatable))

abbrev insert_into : Composed → List String → Composed
insert_into to columns =
    sql "INSERT INTO " ∷ to
    ++ sql " (" ∷ join_sql ", " (map name_of columns)
    ++ sql ") VALUES %s" ∷ []

-- The statement of `write`.
unfoldable pub insert_sql : String → String → List String → List String → WriteMode → Composed
unfolding join_sql
insert_sql schema table columns [] mode = insert_into (rel schema table) columns
insert_sql schema table columns (p ∷ pk) append = insert_into (rel schema table) columns
insert_sql schema table columns (p ∷ pk) upsert =
    insert_into (rel schema table) columns
    ++ sql " ON CONFLICT (" ∷ join_sql ", " (map name_of (p ∷ pk))
    ++ sql ") " ∷ action (keep (λ c. not (contains (p ∷ pk) c)) columns)

abbrev pub counted : ℕ → Handle × Bool → Handle × Option ℕ
counted n (s, true) = (s, some n)
counted n (s, false) = (s, none)

unfoldable pub write_stmts :
    String → String → List String → List Row → List String → WriteMode → List Stmt
unfolding insert_sql
write_stmts schema table columns rows primary_key mode =
    execute_values (insert_sql schema table columns primary_key mode) (map (values_of columns) rows)
    ∷ []

unfoldable pub write :
    Respond
    → String
    → String
    → List String
    → List Row
    → List String
    → WriteMode
    → Handle
    → Handle × Option ℕ
unfolding transact write_stmts
write respond schema table columns [] primary_key mode s = (s, some 0)
write respond schema table columns (row ∷ rows) primary_key mode s =
    counted (length (row ∷ rows))
      (transact respond (write_stmts schema table columns (row ∷ rows) primary_key mode) s)
