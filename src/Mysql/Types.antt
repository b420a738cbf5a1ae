-- ===== src/Mysql/Types.antt =====
-- Native types, canonical types and the types of new columns.
use holypipe.Text.{lower, strip, after, cut}
use Prim.Native.Char.{code}
use Prim.Native.String.{◌++◌ as text_append}
use holypipe.Prelude.{
  ◌≡◌, refl, ap, String, Bool, true, false, ◌&&◌, ◌||◌, Option, none, some, [], ◌∷◌, ◌==◌, str_eq,
  if◌then◌else◌,
}
use holypipe.Dict
use text.Mathlib.TextLemmas.{nil-append, cons-append}
use holypipe.Dict.{Dict}

-- MYSQL_TYPE_MAP
abbrev pub mysql_type_map : Dict String
mysql_type_map =
    ("tinyint", "integer")
    ∷ ("smallint", "integer")
    ∷ ("mediumint", "integer")
    ∷ ("int", "integer")
    ∷ ("integer", "integer")
    ∷ ("bigint", "integer")
    ∷ ("year", "integer")
    ∷ ("decimal", "number")
    ∷ ("numeric", "number")
    ∷ ("float", "number")
    ∷ ("double", "number")
    ∷ ("real", "number")
    ∷ ("bit", "boolean")
    ∷ ("date", "date")
    ∷ ("time", "time")
    ∷ ("datetime", "timestamp")
    ∷ ("timestamp", "timestamp")
    ∷ ("json", "json")
    ∷ ("blob", "binary")
    ∷ ("tinyblob", "binary")
    ∷ ("mediumblob", "binary")
    ∷ ("longblob", "binary")
    ∷ ("binary", "binary")
    ∷ ("varbinary", "binary")
    ∷ []

-- `native.split("(")[0]`
unfoldable pub until_bracket : String → String
until_bracket String.[] = ""
until_bracket (String.◌∷◌ c s) =
    let rest = until_bracket s in if code c == 40 then "" else String.◌∷◌ c rest

abbrev is_some {ℓ} : {A : Type ℓ} → Option A → Bool
is_some none = false
is_some (some a) = true

abbrev pub or_string : Option String → String
or_string none = "string"
or_string (some type) = type

unfoldable pub of_base : String → String
unfolding after
of_base base =
    if is_some (after "tinyint(1)" base) || str_eq base "bool" || str_eq base "boolean"
    then "boolean"
    else or_string (Dict.get base mysql_type_map)

-- `_canonical`
unfoldable pub canonical : String → String
unfolding of_base until_bracket strip lower
canonical native = of_base (lower (strip (until_bracket native)))

-- DDL_TYPES
abbrev pub ddl_types : Dict String
ddl_types =
    ("string", "TEXT")
    ∷ ("integer", "BIGINT")
    ∷ ("number", "DOUBLE")
    ∷ ("boolean", "TINYINT(1)")
    ∷ ("timestamp", "DATETIME")
    ∷ ("date", "DATE")
    ∷ ("time", "TIME")
    ∷ ("json", "JSON")
    ∷ ("binary", "LONGBLOB")
    ∷ []

-- The native type of a column that `discover` reads, of its `data_type` and `column_type`.
unfoldable pub native_of : String → String → String
unfolding cut
native_of data_type column_type =
    if str_eq data_type "tinyint" && is_some (cut "(1)" column_type) then column_type else data_type

until_bracket-append :
    (base rest : String)
    → until_bracket (text_append base (text_append "(" rest)) ≡ until_bracket base
unfolding until_bracket
until_bracket-append String.[] rest =
    rw (nil-append (text_append "(" rest), cons-append ("(") "" rest) refl
until_bracket-append (String.◌∷◌ c base) rest =
    rw (cons-append c base (text_append "(" rest), until_bracket-append base rest) refl

-- What stands in brackets does not count: a tinyint(1), which the discovery passes on for its
-- brackets, is an integer like any tinyint, and not a boolean.
canonical-brackets :
    (base rest : String) → canonical (text_append base (text_append "(" rest)) ≡ canonical base
unfolding canonical
canonical-brackets base rest = ap (λ s. of_base (lower (strip s))) (until_bracket-append base rest)
