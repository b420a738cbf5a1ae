-- ===== src/Dsn.antt =====
-- connectors/dsn.py: `parse_dsn`. Python's URL library is a parameter.
pub mod Fields
mod Tests
use Prim.Native.Char.{code}
use holypipe.Text.{strip, cut, lower, upper}
use holypipe.Models.{int, null, Value, text}
use holypipe.Prelude.Int.{pos, ℤ}
use Prim.Native.String.{◌++◌ as text_append}
use holypipe.Prelude.{
  ℕ, zero, suc, ◌+◌, ◌-◌, ◌*◌, ◌/◌, ◌%◌, ◌^◌, ◌≤◌, ◌<◌, ◌≡◌, ◌∙◌, refl, sym, ap, inl, inr, ◌⊎◌, ◌≢◌,
  String, Bool, true, false, not, ◌&&◌, ◌||◌, Option, none, some, List, [], ◌∷◌, ◌++◌, map, arith,
  ltb, leb, ◌==◌, keep, any, all, contains, length, str_eq, eq_iff, Bool-cases, Option-cases, Each,
  In, if◌then◌else◌,
}
use holypipe.Dict
use holypipe.Dict.{Dict}

-- `parsed.port`: absent, a number, or a ValueError.
pub data Port : Type 0 where
  no_port bad_port : Port
  port_of : ℕ → Port

-- What `urlparse` returns.
pub record Parsed : Type 0 where
  pub scheme : String
  pub hostname : Option String
  pub port : Port
  pub path : String
  pub username : Option String
  pub password : Option String
  pub query : String

-- `urlparse`, where `none` is a ValueError, `unquote`, `parse_qs`, and `int` of a text.
pub record Urls : Type 0 where
  pub urlparse : String → Option Parsed
  pub unquote : String → String
  pub parse_qs : String → Dict (List String)
  pub int_of : String → Option ℤ

-- The config, a DsnError, or another ValueError.
pub data DsnResult : Type 0 where
  config_of : Dict Value → DsnResult
  dsn_error value_error : DsnResult

abbrev pub pg_schemes : List String
pg_schemes = "postgres" ∷ "postgresql" ∷ "postgres+psycopg2" ∷ []

abbrev pub mysql_schemes : List String
mysql_schemes = "mysql" ∷ "mysql+pymysql" ∷ []

abbrev pub sqlite_schemes : List String
sqlite_schemes = "sqlite" ∷ "sqlite3" ∷ []

-- The connector type of a scheme, and its default port.
abbrev pub expected : String → Option (String × ℕ)
expected scheme =
    if contains pg_schemes scheme
    then some ("postgres", 5432)
    else if contains mysql_schemes scheme
    then some ("mysql", 3306)
    else none

abbrev pub path_config : String → DsnResult
path_config path = if str_eq path "" then dsn_error else config_of (("path", text path) ∷ [])

unfoldable pub sqlite_dsn : String → DsnResult
unfolding cut
sqlite_dsn uri = elim (cut "://" uri) [
  | none ↦ path_config uri
  | some (scheme, rest) ↦ if contains sqlite_schemes scheme then path_config rest else dsn_error
]

-- `x or default` on a text that may be None.
abbrev pub text_or : String → Option String → String
text_or default none = default
text_or default (some s) = if str_eq s "" then default else s

abbrev pub port_or : ℕ → ℕ → ℕ
port_or default zero = default
port_or default (suc n) = suc n

abbrev pub text_or_null : String → Value
text_or_null s = if str_eq s "" then null else text s

-- `s.lstrip("/")`
pub without_slashes : String → String
without_slashes String.[] = ""
without_slashes (String.◌∷◌ c s) =
    let rest = without_slashes s in if code c == b'/' then rest else String.◌∷◌ c s

abbrev pub unquoted : (String → String) → Option String → String
unquoted unquote none = ""
unquoted unquote (some s) = if str_eq s "" then "" else unquote s

-- The five fields that both network types have.
unfoldable pub base_config : Urls → Parsed → ℕ → Dict Value
unfolding without_slashes
base_config urls p port =
    ("host", text (text_or "localhost" p.hostname))
    ∷ ("port", int (pos port))
    ∷ ("database", text_or_null (without_slashes p.path))
    ∷ ("username", text (unquoted urls.unquote p.username))
    ∷ ("password", text (unquoted urls.unquote p.password))
    ∷ []

abbrev first_value : Option (List String) → Option String
first_value none = none
first_value (some []) = none
first_value (some (v ∷ vs)) = some v

-- `first(...)`: the first value of the first key that has one.
unfoldable pub first : Dict (List String) → List String → Option String
first qs [] = none
first qs (k ∷ ks) =
    let rest = first qs ks in elim (first_value (Dict.get k qs)) [ some v ↦ some v | none ↦ rest ]

-- `if x: config[key] = x`
abbrev pub put_given : String → (String → String) → Option String → Dict Value → Dict Value
put_given key f none config = config
put_given key f (some s) config = if str_eq s "" then config else Dict.put key (text (f s)) config

unfoldable pub with_postgres : Dict (List String) → Dict Value → Dict Value
unfolding first
with_postgres qs config =
    put_given "replication_slot" (λ s. s) (first qs ("replication_slot" ∷ "slot" ∷ []))
      (put_given "schemas" (λ s. s) (first qs ("schemas" ∷ []))
        (put_given "sslmode" (λ s. s) (first qs ("sslmode" ∷ "ssl_mode" ∷ "ssl-mode" ∷ [])) config))

abbrev put_int : Option ℤ → Dict Value → DsnResult
put_int none config = value_error
put_int (some n) config = config_of (Dict.put "server_id" (int n) config)

abbrev pub with_server_id : Urls → Option String → Dict Value → DsnResult
with_server_id urls none config = config_of config
with_server_id urls (some s) config =
    if str_eq s "" then config_of config else put_int (urls.int_of s) config

unfoldable pub with_mysql : Urls → Dict (List String) → Dict Value → DsnResult
unfolding first upper
with_mysql urls qs config =
    with_server_id urls (first qs ("server_id" ∷ []))
      (put_given "ssl_mode" upper (first qs ("ssl_mode" ∷ "ssl-mode" ∷ "sslmode" ∷ [])) config)

-- The options of the type, on the fields.
unfoldable pub with_options : Urls → String → Parsed → Dict Value → DsnResult
unfolding with_postgres with_mysql
with_options urls conn_type p config =
    if str_eq conn_type "postgres"
    then config_of (with_postgres (urls.parse_qs p.query) config)
    else with_mysql urls (urls.parse_qs p.query) config

abbrev pub with_port : Urls → String → Parsed → ℕ → Port → DsnResult
with_port urls conn_type p default no_port =
    with_options urls conn_type p (base_config urls p default)
with_port urls conn_type p default bad_port = value_error
with_port urls conn_type p default (port_of n) =
    with_options urls conn_type p (base_config urls p (port_or default n))

unfoldable pub network_dsn : Urls → String → Parsed → DsnResult
unfolding with_options base_config lower
network_dsn urls conn_type p = elim (expected (lower p.scheme)) [
  | none ↦ dsn_error
  | some (type, default) ↦
      if not (str_eq conn_type type) then dsn_error else with_port urls conn_type p default p.port
]

unfoldable pub parse_dsn : Urls → String → String → DsnResult
unfolding sqlite_dsn network_dsn strip
parse_dsn urls conn_type uri =
    if str_eq (strip uri) ""
    then dsn_error
    else if str_eq conn_type "sqlite"
    then sqlite_dsn (strip uri)
    else elim (urls.urlparse (strip uri)) [
      | none ↦ value_error
      | some p ↦ network_dsn urls conn_type p
    ]
