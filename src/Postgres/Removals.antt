-- ===== src/Postgres/Removals.antt =====
-- PostgresDestination: `delete`, `truncate` and `swap_in`.
use holypipe.Connector.{meta_extracted_at, meta_op, delete_values, meta_deleted, Row, bounded_name}
use holypipe.Models.{text, Value}
use holypipe.Postgres.Statements.{
  counted, Handle, executemany, rel, Respond, execute, name_of, sql, Composed, Stmt, join_sql,
  transact,
}
use holypipe.Prelude.{ℕ, String, Bool, true, false, Option, some, List, [], ◌∷◌, ◌++◌, map, length}

abbrev where_keys : List String → Composed
where_keys primary_key = join_sql " AND " (map (λ p. name_of p ++ sql " = %s" ∷ []) primary_key)

unfoldable pub delete_sql : String → String → List String → Bool → Composed
unfolding join_sql
delete_sql schema table primary_key true =
    sql "UPDATE " ∷ rel schema table
    ++ sql " SET " ∷ name_of meta_deleted
    ++ sql " = TRUE, " ∷ name_of meta_op
    ++ sql " = 'delete', " ∷ name_of meta_extracted_at
    ++ sql " = %s WHERE " ∷ where_keys primary_key
delete_sql schema table primary_key false =
    sql "DELETE FROM " ∷ rel schema table ++ sql " WHERE " ∷ where_keys primary_key

unfoldable pub delete_stmts : Value → String → String → List String → List Row → Bool → List Stmt
unfolding delete_sql
delete_stmts now schema table primary_key keys soft =
    executemany (delete_sql schema table primary_key soft)
      (map (delete_values now primary_key soft) keys)
    ∷ []

unfoldable pub delete :
    Respond → Value → String → String → List String → List Row → Bool → Handle → Handle × Option ℕ
unfolding transact delete_stmts
delete respond now schema table primary_key [] soft s = (s, some 0)
delete respond now schema table [] (key ∷ keys) soft s = (s, some 0)
delete respond now schema table (p ∷ pk) (key ∷ keys) soft s =
    counted (length (key ∷ keys))
      (transact respond (delete_stmts now schema table (p ∷ pk) (key ∷ keys) soft) s)

abbrev pub truncate_stmts : String → String → List Stmt
truncate_stmts schema table = execute (sql "TRUNCATE TABLE " ∷ rel schema table) [] ∷ []

unfoldable pub truncate : Respond → String → String → Handle → Handle × Bool
unfolding transact
truncate respond schema table s = transact respond (truncate_stmts schema table) s

abbrev pub rename : String → String → String → Stmt
rename schema table new =
    execute (sql "ALTER TABLE " ∷ rel schema table ++ sql " RENAME TO " ∷ name_of new) []

abbrev pub query_table : String → String → Stmt
query_table schema table =
    execute
      (sql "SELECT 1 FROM information_schema.tables WHERE table_schema = %s AND table_name = %s"
        ∷ [])
      (text schema ∷ text table ∷ [])

abbrev pub old_name : String → String
old_name table = bounded_name table "__hpold" 63

abbrev pub drop_table : String → String → Stmt
drop_table schema table = execute (sql "DROP TABLE " ∷ rel schema table) []

-- `exists` says whether the table is there.
unfoldable pub swap_stmts : Bool → String → String → String → List Stmt
unfolding bounded_name
swap_stmts true schema table shadow_table =
    query_table schema table
    ∷ rename schema table (old_name table)
    ∷ rename schema shadow_table table
    ∷ drop_table schema (old_name table)
    ∷ []
swap_stmts false schema table shadow_table =
    query_table schema table ∷ rename schema shadow_table table ∷ []

unfoldable pub swap_in : Respond → Bool → String → String → String → Handle → Handle × Bool
unfolding transact swap_stmts
swap_in respond exists schema table shadow_table s =
    transact respond (swap_stmts exists schema table shadow_table) s
