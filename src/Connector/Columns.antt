-- ===== src/Connector/Columns.antt =====
-- Choosing columns.
use holypipe.Prelude.{
  ◌≡◌, refl, String, Bool, true, ◌&&◌, Option, none, some, List, [], ◌∷◌, ◌++◌, map, arith, eq_iff,
  keep, contains, contains-append,
}
use holypipe.Models.{Column, StreamSchema}
use holypipe.Connector.{column_names, restrict, select_columns}

names_keep :
    (p : String → Bool) (columns : List Column) (name : String)
    → contains (map (λ (c : Column). c.name) (keep (λ c. p c.name) columns)) name
      ≡ (p name && contains (map (λ (c : Column). c.name) columns) name)
names_keep p [] name = ground arith
names_keep p (c ∷ columns) name = ground (arith, names_keep p columns name, eq_iff c.name name)

-- A picked subset leaves of the columns those that were picked or are needed: a column that the
-- primary key or the cursor needs is there exactly when the source has it.
select_columns_needed :
    (picked : Option (List String)) (needed : List String) (schema : StreamSchema) (name : String)
    → contains needed name ≡ true
    → contains (column_names (select_columns picked needed schema)) name
      ≡ contains (column_names schema) name
unfolding select_columns restrict
select_columns_needed none needed schema name h = refl
select_columns_needed (some []) needed schema name h = refl
select_columns_needed (some (c ∷ cs)) needed schema name h = ground (
  arith,
  names_keep (contains ((c ∷ cs) ++ needed)) schema.columns name,
  contains-append (c ∷ cs) needed name,
)
