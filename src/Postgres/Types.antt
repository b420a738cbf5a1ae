-- ===== src/Postgres/Types.antt =====
-- Native types, canonical types and the types of new columns.
use holypipe.Prelude.{
  String, Bool, true, false, ◌||◌, Option, none, some, List, [], ◌∷◌, any, str_eq, if◌then◌else◌,
}
use holypipe.Dict
use holypipe.Dict.{Dict}
use holypipe.Text.{after, lower}

abbrev is_some {ℓ} : {A : Type ℓ} → Option A → Bool
is_some none = false
is_some (some a) = true

abbrev pub starts : String → String → Bool
starts s prefix = is_some (after prefix s)

-- PG_TYPE_MAP
abbrev pub pg_type_map : Dict String
pg_type_map =
    ("smallint", "integer")
    ∷ ("integer", "integer")
    ∷ ("bigint", "integer")
    ∷ ("int2", "integer")
    ∷ ("int4", "integer")
    ∷ ("int8", "integer")
    ∷ ("smallserial", "integer")
    ∷ ("serial", "integer")
    ∷ ("bigserial", "integer")
    ∷ ("numeric", "number")
    ∷ ("decimal", "number")
    ∷ ("real", "number")
    ∷ ("double precision", "number")
    ∷ ("float4", "number")
    ∷ ("float8", "number")
    ∷ ("money", "number")
    ∷ ("boolean", "boolean")
    ∷ ("bool", "boolean")
    ∷ ("timestamp without time zone", "timestamp")
    ∷ ("timestamp with time zone", "timestamp")
    ∷ ("timestamp", "timestamp")
    ∷ ("timestamptz", "timestamp")
    ∷ ("date", "date")
    ∷ ("time without time zone", "time")
    ∷ ("time with time zone", "time")
    ∷ ("time", "time")
    ∷ ("timetz", "time")
    ∷ ("json", "json")
    ∷ ("jsonb", "json")
    ∷ ("bytea", "binary")
    ∷ []

abbrev string_prefixes : List String
string_prefixes =
    "character" ∷ "varchar" ∷ "text" ∷ "char" ∷ "uuid" ∷ "name" ∷ "citext" ∷ "inet" ∷ "cidr"
    ∷ "macaddr" ∷ "xml" ∷ "enum" ∷ []

-- `native.endswith("[]")`
abbrev is_array : String → Bool
is_array String.[] = false
is_array (String.◌∷◌ c s) = let rest = is_array s in str_eq (String.◌∷◌ c s) "[]" || rest

unfoldable pub by_shape : String → String
by_shape native =
    if any (starts native) string_prefixes
    then "string"
    else if starts native "timestamp"
    then "timestamp"
    else if starts native "time"
    then "time"
    else if starts native "int" || starts native "serial"
    then "integer"
    else if any (starts native) ("numeric" ∷ "float" ∷ "double" ∷ "real" ∷ [])
    then "number"
    else if is_array native || str_eq native "array"
    then "json"
    else "string"

-- `_canonical`
unfoldable pub canonical : String → String
unfolding by_shape lower after
canonical native = elim (Dict.get (lower native) pg_type_map) [
  | some type ↦ type
  | none ↦ by_shape (lower native)
]

-- DDL_TYPES
abbrev pub ddl_types : Dict String
ddl_types =
    ("string", "TEXT")
    ∷ ("integer", "BIGINT")
    ∷ ("number", "DOUBLE PRECISION")
    ∷ ("boolean", "BOOLEAN")
    ∷ ("timestamp", "TIMESTAMP")
    ∷ ("date", "DATE")
    ∷ ("time", "TIME")
    ∷ ("json", "JSONB")
    ∷ ("binary", "BYTEA")
    ∷ []
