-- ===== src/Connector/Tables.antt =====
-- What `discover` makes of the rows of its queries, in the Postgres and the MySQL source: dicts of
-- lists, keyed by a schema and a table.
use holypipe.Models.{StreamSchema, Column}
use Prim.Native.String.{◌++◌ as text_append}
use holypipe.Prelude.{String, Bool, ◌&&◌, some, List, [], ◌∷◌, ◌++◌, map, str_eq, if◌then◌else◌}

-- An entry of such a dict, for `cols.setdefault((schema, table), []).append(...)`.
pub record Group {ℓ} (A : Type ℓ) : Type ℓ where
  pub schema : String
  pub table : String
  pub items : List A

module _ {ℓ} {A : Type ℓ} where
  abbrev pub is_at : String → String → Group A → Bool
  is_at schema table g = str_eq g.schema schema && str_eq g.table table

  unfoldable pub append_to : String → String → A → List (Group A) → List (Group A)
  append_to schema table item [] = record { schema = schema; table = table; items = item ∷ [] } ∷ []
  append_to schema table item (g ∷ groups) =
      let rest = append_to schema table item groups in
      if is_at schema table g then record g { items = g.items ++ item ∷ [] } ∷ groups else g ∷ rest

  -- `d.get((schema, table), [])`
  unfoldable pub items_at : String → String → List (Group A) → List A
  items_at schema table [] = []
  items_at schema table (g ∷ groups) =
      let rest = items_at schema table groups in if is_at schema table g then g.items else rest

-- A row about a column of a table, with the column or its name.
pub record About {ℓ} (A : Type ℓ) : Type ℓ where
  pub schema : String
  pub table : String
  pub item : A

unfoldable pub grouped {ℓ} : {A : Type ℓ} → List (About A) → List (Group A) → List (Group A)
unfolding append_to
grouped [] groups = groups
grouped (row ∷ rows) groups = grouped rows (append_to row.schema row.table row.item groups)

-- A row of the query for tables.
pub record TableRow : Type 0 where
  pub schema : String
  pub table : String

abbrev pub stream_at : List (Group Column) → List (Group String) → TableRow → StreamSchema
stream_at cols pks t = record {
  name = text_append t.schema (text_append "." t.table);
  table = t.table;
  namespace = some t.schema;
  columns = items_at t.schema t.table cols;
  primary_key = items_at t.schema t.table pks;
}

-- The streams, of the rows of the three queries.
unfoldable pub streams_of :
    List TableRow → List (About Column) → List (About String) → List StreamSchema
unfolding grouped items_at
streams_of tables cols pks = map (stream_at (grouped cols []) (grouped pks [])) tables
