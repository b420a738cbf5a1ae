-- ===== src/Sqlite/Types.antt =====
-- `_canonical`, and `_user_tables`.
use holypipe.Text.{upper, after, cut}
use holypipe.Prelude.{
  String, Bool, true, false, not, ◌&&◌, ◌||◌, Option, none, some, List, [], ◌∷◌, keep, any,
  contains, str_eq, if◌then◌else◌,
}

abbrev found {ℓ} : {A : Type ℓ} → Option A → Bool
found none = false
found (some a) = true

-- `part in s`
abbrev has_part : String → String → Bool
has_part s part = found (cut part s)

unfoldable pub by_part : String → String
unfolding cut
by_part native =
    if has_part native "INT"
    then "integer"
    else if any (has_part native) ("REAL" ∷ "FLOA" ∷ "DOUB" ∷ "NUMERIC" ∷ "DECIMAL" ∷ [])
    then "number"
    else if has_part native "BOOL"
    then "boolean"
    else if has_part native "BLOB"
    then "binary"
    else if has_part native "DATETIME" || has_part native "TIMESTAMP"
    then "timestamp"
    else if str_eq native "DATE"
    then "date"
    else if str_eq native "JSON"
    then "json"
    else "string"

unfoldable pub canonical : String → String
unfolding by_part upper
canonical native = by_part (upper native)

abbrev pub cdc_log_table : String
cdc_log_table = "_holypipe_cdc_log"

abbrev system_tables : List String
system_tables = "sqlite_sequence" ∷ "sqlite_stat1" ∷ "sqlite_stat4" ∷ cdc_log_table ∷ []

-- `_user_tables`, of the names that the query returns.
unfoldable pub user_tables : List String → List String
unfolding after
user_tables names =
    keep (λ name. not (contains system_tables name) && not (found (after "_holypipe_" name))) names
