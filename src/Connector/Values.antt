-- ===== src/Connector/Values.antt =====
-- `normalize_value` and `normalize_record`, over the values that drivers return, and how the
-- connectors read a config: `bool`, `int`, `dict.get`.
use holypipe.Connector.{true, suc, Option, false, Row}
use holypipe.Models.{text, float, null, bool, bytes, time, int, Value}
use holypipe.Prelude.Int.{ℤ, pos, negsuc}
use holypipe.Prelude.{
  ◌==◌, ◌||◌, ◌^◌, ℕ, zero, suc, String, Bool, true, false, not, Option, none, some, List, [], ◌∷◌,
  map, str_eq,
}
use holypipe.Dict
use holypipe.Dict.{Dict}

-- A value of a driver. A float is its IEEE bit pattern, a date or a time of day counts microseconds
-- like a time; a decimal, a container or a value of another class is what it is to the functions
-- that print it.
mutual
  pub data DriverValue : Type 0 where
    none_value : DriverValue
    bool_value : Bool → DriverValue
    int_value : ℤ → DriverValue
    float_value : ℕ → DriverValue
    str_value : String → DriverValue
    decimal_value : String → DriverValue
    time_value : ℕ → DriverValue
    timedelta_value : ℤ → DriverValue
    uuid_value : ℕ → DriverValue
    bytes_value : List ℕ → DriverValue
    dict_value : DriverItems → DriverValue
    list_value : DriverItems → DriverValue
    tuple_value : DriverItems → DriverValue
    set_value : DriverItems → DriverValue
    other_value : String → DriverValue

  -- The items of a sequence, a set in the order in which it is read, or the keys and values of a
  -- dict in turns.
  pub data DriverItems : Type 0 where
    no_items : DriverItems
    items : DriverValue → DriverItems → DriverItems

-- `float`, `str` and `json.dumps` of Python.
pub record Printers : Type 0 where
  pub float_of : String → ℕ
  pub str_of : DriverValue → String
  pub dumps : DriverValue → String

unfoldable pub normalize_value : Printers → DriverValue → Value
normalize_value py none_value = null
normalize_value py (bool_value b) = bool b
normalize_value py (int_value i) = int i
normalize_value py (float_value bits) = float bits
normalize_value py (str_value s) = text s
normalize_value py (decimal_value s) = float (py.float_of s)
normalize_value py (time_value at) = time at
normalize_value py (timedelta_value d) = text (py.str_of (timedelta_value d))
normalize_value py (uuid_value u) = text (py.str_of (uuid_value u))
normalize_value py (bytes_value bs) = bytes bs
normalize_value py (dict_value vs) = text (py.dumps (dict_value vs))
normalize_value py (list_value vs) = text (py.dumps (list_value vs))
normalize_value py (tuple_value vs) = text (py.dumps (list_value vs))
normalize_value py (set_value vs) = text (py.dumps (list_value vs))
normalize_value py (other_value s) = text (py.str_of (other_value s))

abbrev pub DriverRow : Type 0
DriverRow = Dict DriverValue

unfoldable pub normalize_record : Printers → DriverRow → Row
unfolding normalize_value
normalize_record py row = map (λ (k, v). (k, normalize_value py v)) row

-- What the code relies on of Python's `int`: the number of a config value, or an exception.
abbrev pub IntOf : Type 0
IntOf = Value → Option ℤ

-- `bool(value)`; a float is false for both of its zeros.
abbrev pub is_truthy : Value → Bool
is_truthy null = false
is_truthy (bool b) = b
is_truthy (int (pos zero)) = false
is_truthy (int (pos (suc n))) = true
is_truthy (int (negsuc n)) = true
is_truthy (float bits) = not (bits == 0 || bits == 2 ^ 63)
is_truthy (text s) = not (str_eq s "")
is_truthy (time at) = true
is_truthy (bytes []) = false
is_truthy (bytes (b ∷ bs)) = true

-- `config.get(key, default)`
abbrev pub get_or : String → Value → Dict Value → Value
get_or key default config = elim (Dict.get key config) [ none ↦ default | some v ↦ v ]
