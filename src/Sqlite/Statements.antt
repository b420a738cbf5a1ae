-- ===== src/Sqlite/Statements.antt =====
-- SqliteDestination: the statements of its calls. The connection is kept between calls, with its
-- transaction open or not. A database answers each statement, or raises sqlite3.Error, or another
-- exception, such as the OverflowError of an integer that SQLite cannot hold. The placeholders'
-- values stand beside the text.
use holypipe.Text.{concat, join}
use holypipe.Connector.{
  delete_values, values_of, meta_extracted_at, meta_op, Row, WriteMode, bounded_name, meta_deleted,
}
use holypipe.Models.{Value}
use Prim.Native.String.{◌++◌ as text_append}
use holypipe.Prelude.{
  ◌⨾◌, ℕ, String, Bool, true, false, not, Option, none, some, List, [], ◌∷◌, ◌++◌, map, keep,
  contains, length,
}
use holypipe.Connector.{append, upsert}

pub data Answer : Type 0 where
  done sqlite_error other_error : Answer

pub data Stmt : Type 0 where
  begin commit rollback : Stmt
  execute : String → Stmt
  executemany : String → List (List Value) → Stmt

-- What was executed without an exception, newest first.
pub record Handle : Type 0 where
  pub executed : List Stmt
  pub in_transaction : Bool

abbrev pub Respond : Type 0
Respond = Handle → Stmt → Answer

abbrev pub opens : Stmt → Bool → Bool
opens begin was = true
opens commit was = false
opens rollback was = false
opens (execute sql) was = was
opens (executemany sql values) was = was

abbrev pub after_stmt : Answer → Stmt → Handle → Handle
after_stmt done stmt s = record {
  executed = stmt ∷ s.executed;
  in_transaction = opens stmt s.in_transaction;
}
after_stmt sqlite_error stmt s = s
after_stmt other_error stmt s = s

abbrev pub is_done : Answer → Bool
is_done done = true
is_done sqlite_error = false
is_done other_error = false

-- A statement outside a `try`; `false` is its exception.
abbrev pub perform : Respond → Stmt → Handle → Handle × Bool
perform respond stmt s = (after_stmt (respond s stmt) stmt s, is_done (respond s stmt))

-- The statements of a `try`, and how it ends.
unfoldable pub try_all : Respond → List Stmt → Handle → Handle × Answer
try_all respond [] s = (s, done)
try_all respond (stmt ∷ stmts) s = elim (respond s stmt) [
  | done ↦ try_all respond stmts (after_stmt done stmt s)
  | sqlite_error ↦ (s, sqlite_error)
  | other_error ↦ (s, other_error)
]

-- `except sqlite3.Error`, with its ROLLBACK.
abbrev pub caught : Respond → Handle × Answer → Handle × Bool
caught respond (s, done) = (s, true)
caught respond (s, sqlite_error) = ((perform respond rollback s).0, false)
caught respond (s, other_error) = (s, false)

-- BEGIN, and behind it the statements and COMMIT under the `try`.
unfoldable pub transact : Respond → List Stmt → Handle → Handle × Bool
unfolding try_all
transact respond stmts s =
    perform respond begin s ⨾ (λ s. caught respond (try_all respond (stmts ++ commit ∷ []) s))

-- f'"{s}"'
abbrev pub in_quotes : String → String
in_quotes s = concat ("\"" ∷ s ∷ "\"" ∷ [])

abbrev insert_into : String → List String → String
insert_into table columns = concat (
    "INSERT INTO "
    ∷ in_quotes table
    ∷ " ("
    ∷ join ", " (map in_quotes columns)
    ∷ ") VALUES ("
    ∷ join ", " (map (λ c. "?") columns)
    ∷ ")"
    ∷ [])

abbrev on_conflict : List String → List String → String
on_conflict primary_key [] = "ON CONFLICT DO NOTHING"
on_conflict primary_key (c ∷ updatable) = concat (
    "ON CONFLICT("
    ∷ join ", " (map in_quotes primary_key)
    ∷ ") DO UPDATE SET "
    ∷ join ", "
        (map (λ c. concat (in_quotes c ∷ " = excluded." ∷ in_quotes c ∷ [])) (c ∷ updatable))
    ∷ [])

-- The statement of `write`.
unfoldable pub insert_sql : String → List String → List String → WriteMode → String
unfolding join
insert_sql table columns [] mode = insert_into table columns
insert_sql table columns (p ∷ pk) append = insert_into table columns
insert_sql table columns (p ∷ pk) upsert = concat (
    insert_into table columns
    ∷ " "
    ∷ on_conflict (p ∷ pk) (keep (λ c. not (contains (p ∷ pk) c)) columns)
    ∷ [])

abbrev pub counted : ℕ → Handle × Bool → Handle × Option ℕ
counted n (s, true) = (s, some n)
counted n (s, false) = (s, none)

unfoldable pub write :
    Respond → String → List String → List Row → List String → WriteMode → Handle → Handle × Option ℕ
unfolding transact insert_sql
write respond table columns [] primary_key mode s = (s, some 0)
write respond table columns (row ∷ rows) primary_key mode s = counted (length (row ∷ rows)) (
    transact respond
      (executemany (insert_sql table columns primary_key mode)
          (map (values_of columns) (row ∷ rows))
        ∷ [])
      s)

-- `" AND ".join(...)`
abbrev where_keys : List String → String
where_keys primary_key = join " AND " (map (λ p. text_append (in_quotes p) " = ?") primary_key)

unfoldable pub delete_sql : String → List String → Bool → String
unfolding join
delete_sql table primary_key true = concat (
    "UPDATE "
    ∷ in_quotes table
    ∷ " SET "
    ∷ in_quotes meta_deleted
    ∷ " = 1, "
    ∷ in_quotes meta_op
    ∷ " = 'delete', "
    ∷ in_quotes meta_extracted_at
    ∷ " = ? WHERE "
    ∷ where_keys primary_key
    ∷ [])
delete_sql table primary_key false =
    concat ("DELETE FROM " ∷ in_quotes table ∷ " WHERE " ∷ where_keys primary_key ∷ [])

unfoldable pub delete :
    Respond → Value → String → List String → List Row → Bool → Handle → Handle × Option ℕ
unfolding transact delete_sql
delete respond now table primary_key [] soft s = (s, some 0)
delete respond now table [] (key ∷ keys) soft s = (s, some 0)
delete respond now table (p ∷ pk) (key ∷ keys) soft s = counted (length (key ∷ keys)) (
    transact respond
      (executemany (delete_sql table (p ∷ pk) soft)
          (map (delete_values now (p ∷ pk) soft) (key ∷ keys))
        ∷ [])
      s)

unfoldable pub truncate : Respond → String → Handle → Handle × Bool
truncate respond table s =
    perform respond (execute (text_append "DELETE FROM " (in_quotes table))) s

abbrev rename : String → String → Stmt
rename table new =
    execute (concat ("ALTER TABLE " ∷ in_quotes table ∷ " RENAME TO " ∷ in_quotes new ∷ []))

abbrev pub swap_stmts : Bool → String → String → List Stmt
swap_stmts true table shadow_table =
    rename table (bounded_name table "__hpold" 63)
    ∷ rename shadow_table table
    ∷ execute (text_append "DROP TABLE " (in_quotes (bounded_name table "__hpold" 63)))
    ∷ []
swap_stmts false table shadow_table = rename shadow_table table ∷ []

-- `existing` says whether the table is there.
unfoldable pub swap_in : Respond → Bool → String → String → Handle → Handle × Bool
unfolding transact bounded_name
swap_in respond existing table shadow_table s =
    transact respond (swap_stmts existing table shadow_table) s
