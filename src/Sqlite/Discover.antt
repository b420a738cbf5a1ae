-- ===== src/Sqlite/Discover.antt =====
-- SqliteSource.discover and `_table_columns`, of the names of tables and of the rows of
-- `PRAGMA table_info`.
use holypipe.Prelude.{
  ℕ, ◌≡◌, refl, String, Bool, true, false, not, Option, none, some, List, [], ◌∷◌, map, ltb, leb,
  keep, if◌then◌else◌,
}
use holypipe.Models.{Column, StreamSchema}
use holypipe.Sqlite.Types.{canonical, user_tables}

-- The second to fourth and the last column of a row; `pk` is the place in the primary key, from 1.
pub record InfoRow : Type 0 where
  pub name : String
  pub ctype : Option String
  pub notnull : Bool
  pub pk : ℕ

abbrev or_empty : Option String → String
or_empty none = ""
or_empty (some s) = s

abbrev pub column_of : InfoRow → Column
column_of row = record {
  name = row.name;
  type = canonical (or_empty row.ctype);
  nullable = not row.notnull;
  native_type = or_empty row.ctype;
}

-- `sort(key=lambda r: r[5])`, which keeps the order of equal keys.
unfoldable pub insert_row : InfoRow → List InfoRow → List InfoRow
insert_row row [] = row ∷ []
insert_row row (r ∷ rows) =
    let rest = insert_row row rows in if leb row.pk r.pk then row ∷ r ∷ rows else r ∷ rest

unfoldable pub sort_rows : List InfoRow → List InfoRow
unfolding insert_row
sort_rows [] = []
sort_rows (row ∷ rows) = insert_row row (sort_rows rows)

unfoldable pub table_columns : List InfoRow → List Column × List String
unfolding sort_rows canonical
table_columns rows = (
  map column_of rows,
  map (λ (row : InfoRow). row.name) (sort_rows (keep (λ (row : InfoRow). ltb 0 row.pk) rows)),
)

abbrev stream_of : String → List Column × List String → StreamSchema
stream_of table (cols, pks) = record {
  name = table;
  table = table;
  namespace = none;
  columns = cols;
  primary_key = pks;
}

-- `names` are the tables that the query returns, `info` the rows of each.
unfoldable pub discover : (String → List InfoRow) → List String → List StreamSchema
unfolding table_columns user_tables
discover info names =
    map (λ table. stream_of table (table_columns (info table))) (user_tables names)

table_columns-composite :
    table_columns (
      record { name = "b"; ctype = some "INT"; notnull = true; pk = 2 }
      ∷ record { name = "n"; ctype = none; notnull = false; pk = 0 }
      ∷ record { name = "a"; ctype = some "text"; notnull = true; pk = 1 }
      ∷ [])
    ≡ (
      record { name = "b"; type = "integer"; nullable = false; native_type = "INT" }
          ∷ record { name = "n"; type = "string"; nullable = true; native_type = "" }
          ∷ record { name = "a"; type = "string"; nullable = false; native_type = "text" }
          ∷ [],
      "a" ∷ "b" ∷ [],
    )
unfolding table_columns
table_columns-composite = refl
