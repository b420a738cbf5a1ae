-- ===== src/Mysql/Changes.antt =====
-- MysqlDestination: `write`, `delete`, `truncate` and `swap_in`.
use holypipe.Models.{Value, text}
use holypipe.Mysql.Statements.{
  executemany, quoted_table, Respond, commit, execute, in_backticks, Stmt, perform_all,
}
use holypipe.Text.{concat, join}
use Prim.Native.String.{◌++◌ as text_append}
use holypipe.Prelude.{
  ℕ, String, Bool, true, false, not, Option, none, some, List, [], ◌∷◌, map, keep, contains, length,
}
use holypipe.Connector.{
  delete_values, meta_extracted_at, values_of, meta_op, Row, meta_deleted, WriteMode, bounded_name,
  append, upsert,
}

abbrev insert_into : String → List String → String
insert_into table columns = concat (
    "INSERT INTO "
    ∷ table
    ∷ " ("
    ∷ join ", " (map in_backticks columns)
    ∷ ") VALUES ("
    ∷ join ", " (map (λ c. "%s") columns)
    ∷ ")"
    ∷ [])

abbrev set_value : String → String
set_value c = concat (in_backticks c ∷ " = VALUES(" ∷ in_backticks c ∷ ")" ∷ [])

abbrev setters : String → List String → String
setters p [] = concat (in_backticks p ∷ " = " ∷ in_backticks p ∷ [])
setters p (c ∷ updatable) = join ", " (map set_value (c ∷ updatable))

-- The statement of `write`.
unfoldable pub insert_sql : String → List String → List String → WriteMode → String
unfolding join
insert_sql table columns [] mode = insert_into table columns
insert_sql table columns (p ∷ pk) append = insert_into table columns
insert_sql table columns (p ∷ pk) upsert = concat (
    insert_into table columns
    ∷ " ON DUPLICATE KEY UPDATE "
    ∷ setters p (keep (λ c. not (contains (p ∷ pk) c)) columns)
    ∷ [])

abbrev pub counted : ℕ → List Stmt × Bool → List Stmt × Option ℕ
counted n (passed, true) = (passed, some n)
counted n (passed, false) = (passed, none)

unfoldable pub write :
    Respond
    → String
    → String
    → List String
    → List Row
    → List String
    → WriteMode
    → List Stmt
    → List Stmt × Option ℕ
unfolding perform_all insert_sql
write respond db table columns [] primary_key mode passed = (passed, some 0)
write respond db table columns (row ∷ rows) primary_key mode passed =
    counted (length (row ∷ rows)) (
      perform_all respond
        (executemany (insert_sql (quoted_table db table) columns primary_key mode)
            (map (values_of columns) (row ∷ rows))
          ∷ commit
          ∷ [])
        passed)

-- `" AND ".join(...)`
abbrev where_keys : List String → String
where_keys primary_key = join " AND " (map (λ p. text_append (in_backticks p) " = %s") primary_key)

unfoldable pub delete_sql : String → List String → Bool → String
unfolding join
delete_sql table primary_key true = concat (
    "UPDATE "
    ∷ table
    ∷ " SET "
    ∷ in_backticks meta_deleted
    ∷ " = 1, "
    ∷ in_backticks meta_op
    ∷ " = 'delete', "
    ∷ in_backticks meta_extracted_at
    ∷ " = %s WHERE "
    ∷ where_keys primary_key
    ∷ [])
delete_sql table primary_key false =
    concat ("DELETE FROM " ∷ table ∷ " WHERE " ∷ where_keys primary_key ∷ [])

unfoldable pub delete :
    Respond
    → Value
    → String
    → String
    → List String
    → List Row
    → Bool
    → List Stmt
    → List Stmt × Option ℕ
unfolding perform_all delete_sql
delete respond now db table primary_key [] soft passed = (passed, some 0)
delete respond now db table [] (key ∷ keys) soft passed = (passed, some 0)
delete respond now db table (p ∷ pk) (key ∷ keys) soft passed = counted (length (key ∷ keys)) (
    perform_all respond
      (executemany (delete_sql (quoted_table db table) (p ∷ pk) soft)
          (map (delete_values now (p ∷ pk) soft) (key ∷ keys))
        ∷ commit
        ∷ [])
      passed)

unfoldable pub truncate : Respond → String → String → List Stmt → List Stmt × Bool
unfolding perform_all
truncate respond db table passed =
    perform_all respond
      (execute (text_append "TRUNCATE TABLE " (quoted_table db table)) [] ∷ commit ∷ []) passed

abbrev pub old_name : String → String
old_name table = bounded_name table "__hpold" 63

abbrev pub rename_both : String → String → String → Stmt
rename_both db table shadow_table =
    execute
      (concat (
        "RENAME TABLE "
        ∷ quoted_table db table
        ∷ " TO "
        ∷ quoted_table db (old_name table)
        ∷ ", "
        ∷ quoted_table db shadow_table
        ∷ " TO "
        ∷ quoted_table db table
        ∷ []))
      []

abbrev pub drop_old : String → String → Stmt
drop_old db table = execute (text_append "DROP TABLE " (quoted_table db (old_name table))) []

abbrev pub query_table : String → String → Stmt
query_table db table =
    execute "SELECT 1 FROM information_schema.tables WHERE table_schema = %s AND table_name = %s"
      (text db ∷ text table ∷ [])

-- What `exists` decides, which says whether the table is there.
unfoldable pub swap_stmts : Bool → String → String → String → List Stmt
unfolding bounded_name
swap_stmts true db table shadow_table =
    rename_both db table shadow_table ∷ drop_old db table ∷ commit ∷ []
swap_stmts false db table shadow_table =
    execute
      (concat
        ("RENAME TABLE " ∷ quoted_table db shadow_table ∷ " TO " ∷ quoted_table db table ∷ []))
      []
    ∷ commit
    ∷ []

unfoldable pub swap_in : Respond → Bool → String → String → String → List Stmt → List Stmt × Bool
unfolding perform_all swap_stmts
swap_in respond exists db table shadow_table passed =
    perform_all respond (query_table db table ∷ swap_stmts exists db table shadow_table) passed
