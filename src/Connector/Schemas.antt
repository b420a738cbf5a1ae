-- ===== src/Connector/Schemas.antt =====
-- `as_dict` and `from_dict` of Column and StreamSchema: how a schema is kept in the store. A dict is
-- the record of what `get` finds at its keys, `none` if the key is missing.
use holypipe.Prelude.{◌≡◌, refl, String, Bool, true, Option, none, some, List, [], ◌∷◌, map}
use holypipe.Models.{Column, StreamSchema}
use holypipe.Prelude.{◌>>=◌}

pub record ColumnDict : Type 0 where
  pub name : Option String
  pub type : Option String
  pub nullable : Option Bool
  pub native_type : Option String

pub record SchemaDict : Type 0 where
  pub name : Option String
  pub table : Option String
  pub namespace : Option (Option String)
  pub columns : Option (List ColumnDict)
  pub primary_key : Option (List String)

abbrev or_default {ℓ} : {A : Type ℓ} → A → Option A → A
or_default default none = default
or_default default (some a) = a

abbrev pub column_as_dict : Column → ColumnDict
column_as_dict c = record {
  name = some c.name;
  type = some c.type;
  nullable = some c.nullable;
  native_type = some c.native_type;
}

-- `none` is a KeyError.
abbrev pub column_from_dict : ColumnDict → Option Column
column_from_dict d = do
  name ← d.name
  some (record {
    name = name;
    type = or_default "string" d.type;
    nullable = or_default true d.nullable;
    native_type = or_default "" d.native_type;
  })

unfoldable pub columns_from_dicts : List ColumnDict → Option (List Column)
columns_from_dicts [] = some []
columns_from_dicts (d ∷ ds) = do c ← column_from_dict d; cs ← columns_from_dicts ds; some (c ∷ cs)

abbrev pub as_dict : StreamSchema → SchemaDict
as_dict s = record {
  name = some s.name;
  table = some s.table;
  namespace = some s.namespace;
  columns = some (map column_as_dict s.columns);
  primary_key = some s.primary_key;
}

unfoldable pub from_dict : SchemaDict → Option StreamSchema
unfolding columns_from_dicts
from_dict d = do
  name ← d.name
  table ← d.table
  columns ← columns_from_dicts (or_default [] d.columns)
  some (record {
    name = name;
    table = table;
    namespace = or_default none d.namespace;
    columns = columns;
    primary_key = or_default [] d.primary_key;
  })

columns_from_dicts-map :
    (columns : List Column) → columns_from_dicts (map column_as_dict columns) ≡ some columns
unfolding columns_from_dicts
columns_from_dicts-map [] = refl
columns_from_dicts-map (c ∷ columns) = rw (columns_from_dicts-map columns) refl

-- A stored schema is read back as it was.
from_dict-as_dict : (s : StreamSchema) → from_dict (as_dict s) ≡ some s
unfolding from_dict
from_dict-as_dict s = rw (columns_from_dicts-map s.columns) refl
