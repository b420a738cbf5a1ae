-- ===== src/Connector.antt =====
-- connectors/base.py: what the engine says to its connectors. A database is outside: the engine
-- sees of it only how it answers. So a destination is the list of the calls made so far, newest
-- first, and a function from that list to the answer: a count, or `none` if the call raises.
pub mod Names
pub mod Columns
pub mod Values
pub mod Schemas
pub mod Tables
pub mod Grouping
mod Tests
use Prim.Native.String.{count}
use Prim.Native.String.{◌++◌ as text_append}
use holypipe.Prelude.{
  ℕ, zero, suc, ◌-◌, max, String, Bool, true, false, ◌||◌, Option, none, some, List, [], ◌∷◌, ◌++◌,
  map, keep, contains, str_eq, if◌then◌else◌,
}
use holypipe.Dict
use holypipe.Dict.{Dict}
use holypipe.Models.{null, bool, text, time, Value, StreamSchema, Column}

abbrev pub Row : Type 0
Row = Dict Value

pub record ChangeEvent : Type 0 where
  pub stream : String
  pub op : String
  pub data_row : Row
  pub key : Row

pub data WriteMode : Type 0 where
  append upsert : WriteMode

-- The calls of BaseDestination: a table, its namespace, and the rest.
pub data Call : Type 0 where
  prepare : String → Option String → StreamSchema → Call
  truncate : String → Option String → Call
  write : String → Option String → List String → List Row → List String → WriteMode → Call
  delete : String → Option String → List String → List Row → Bool → Call
  swap_in : String → Option String → String → Call

abbrev pub Respond : Type 0
Respond = List Call → Option ℕ

-- `schema.column_names()`
abbrev pub column_names : StreamSchema → List String
column_names schema = map (λ c. c.name) schema.columns

-- `mode = "upsert" if pk else "append"`
abbrev pub write_mode : List String → WriteMode
write_mode [] = append
write_mode (_ ∷ _) = upsert

-- settings.meta_extracted_at, meta_op and meta_deleted of config.py
abbrev pub meta_extracted_at : String
meta_extracted_at = "_hp_extracted_at"

abbrev pub meta_op : String
meta_op = "_hp_op"

abbrev pub meta_deleted : String
meta_deleted = "_hp_deleted"

abbrev pub meta_columns : List String
meta_columns = meta_extracted_at ∷ meta_op ∷ meta_deleted ∷ []

-- The first characters of a text.
unfoldable pub take_chars : ℕ → String → String
take_chars zero s = ""
take_chars (suc n) String.[] = ""
take_chars (suc n) (String.◌∷◌ c s) = String.◌∷◌ c (take_chars n s)

unfoldable pub bounded_name : String → String → ℕ → String
unfolding take_chars
bounded_name base suffix limit = text_append (take_chars (max (limit - count suffix) 1) base) suffix

unfoldable pub shadow_table_name : String → String
unfolding bounded_name
shadow_table_name table = bounded_name table "__hpswap" 63

-- `x or default` on a list.
abbrev pub or_list : List String → List String → List String
or_list [] default = default
or_list (x ∷ xs) default = x ∷ xs

-- `stream_def.get("destination_table") or f"{prefix}{schema.table}"`
abbrev prefixed : String → Option String → String → String
prefixed prefix none table = text_append prefix table
prefixed prefix (some given) table = if str_eq given "" then text_append prefix table else given

unfoldable pub destination_table : String → Option String → String → String
destination_table prefix given table = prefixed prefix given table

-- `schema.columns = [c for c in schema.columns if c.name in kept]`
pub restrict : List String → StreamSchema → StreamSchema
restrict kept schema = record schema { columns = keep (λ c. contains kept c.name) schema.columns }

-- A subset that the user picked keeps what it must; none picked keeps all columns.
abbrev pick : List String → List String → StreamSchema → StreamSchema
pick [] needed schema = schema
pick (c ∷ cs) needed schema = restrict ((c ∷ cs) ++ needed) schema

pub select_columns : Option (List String) → List String → StreamSchema → StreamSchema
unfolding restrict
select_columns none needed schema = schema
select_columns (some picked) needed schema = pick picked needed schema

-- `d.get(c)`, where a missing key is None.
abbrev pub value_or_null : Option Value → Value
value_or_null none = null
value_or_null (some v) = v

-- `{c: data.get(c) for c in names}`
abbrev pub project : List String → Row → Row
project [] row = []
project (c ∷ names) row = (c, value_or_null (Dict.get c row)) ∷ project names row

-- `{p: data.get(p) for p in pk} if pk else data`
abbrev pub key_of : List String → Row → Row
key_of [] data_row = data_row
key_of (p ∷ pk) data_row = project (p ∷ pk) data_row

-- The three columns that are added to a row.
abbrev pub with_meta : ℕ → String → Row → Row
with_meta now op row =
    Dict.put meta_deleted (bool false)
      (Dict.put meta_op (text op) (Dict.put meta_extracted_at (time now) row))

abbrev pub all_columns : StreamSchema → List String
all_columns schema = column_names schema ++ meta_columns

-- `tuple(r.get(c) for c in columns)`
abbrev pub values_of : List String → Row → List Value
values_of columns row = map (λ c. value_or_null (Dict.get c row)) columns

-- The values of a deletion, the time in front if it only marks the rows.
abbrev pub delete_values : Value → List String → Bool → Row → List Value
delete_values now primary_key true row = now ∷ values_of primary_key row
delete_values now primary_key false row = values_of primary_key row

-- `DDL_TYPES.get(type, "TEXT")`, of what is found.
abbrev pub ddl_or_text : Option String → String
ddl_or_text none = "TEXT"
ddl_or_text (some ddl) = ddl
