-- ===== src/Dsn/Fields.antt =====
-- The fields of a config that was parsed from a connection string.
use mathlib.Core.Path.{subst}
use holypipe.Text.{upper, lower, cut}
use holypipe.Prelude.Int.{pos}
use holypipe.Dsn.{
  unquoted, without_slashes, text_or_null, port_of, mysql_schemes, with_port, Port, pg_schemes,
  strip, with_mysql, Parsed, base_config, expected, first, network_dsn, parse_dsn, text_or,
  with_options, sqlite_schemes, config_of, path_config, put_given, with_server_id, Urls, sqlite_dsn,
  with_postgres,
}
use holypipe.Models.{int, text, Value}
use holypipe.Prelude.{
  ◌==◌, ℕ, zero, suc, ◌≡◌, ◌∙◌, refl, sym, ap, inl, inr, ◌⊎◌, String, true, false, Option, none,
  some, List, [], ◌∷◌, arith, contains, str_eq, eq_iff, Bool-cases, Option-cases,
}
use holypipe.Dict
use holypipe.Dsn.{no_port, bad_port, port_of}
use holypipe.Dict.{get-put, Dict}

-- The path of an SQLite address: what follows `://`, if the scheme before it is SQLite's, and the
-- whole address if there is no `://`.
abbrev pub IsPath : String → String → Type 0
IsPath uri path =
    ((cut "://" uri ≡ none) × (path ≡ uri))
    ⊎ (scheme : String) × (cut "://" uri ≡ some (scheme, path))
      × (contains ("sqlite" ∷ "sqlite3" ∷ []) scheme ≡ true)

-- The port given, unless there is none or it is 0: then the default.
abbrev pub IsPort : ℕ → Port → ℕ → Type 0
IsPort default given n =
    ((given ≡ port_of n) × (◌==◌ n 0 ≡ false))
    ⊎ (((given ≡ no_port) ⊎ (given ≡ port_of 0)) × (n ≡ default))

-- The type of a connector, a scheme of it, and its default port.
abbrev pub IsKind : String → String → ℕ → Type 0
IsKind conn_type scheme default =
    ((conn_type ≡ "postgres") × (contains pg_schemes scheme ≡ true) × (default ≡ 5432))
    ⊎ ((conn_type ≡ "mysql") × (contains mysql_schemes scheme ≡ true) × (default ≡ 3306))

-- The config of a server is read off its address.
pub record IsServer (urls : Urls) (conn_type : String) (p : Parsed) (config : Dict Value)
    : Type 0 where
  pub default : ℕ
  pub kind : IsKind conn_type (lower p.scheme) default
  pub port : ℕ
  pub given : IsPort default p.port port
  pub host_field : Dict.get "host" config ≡ some (text (text_or "localhost" p.hostname))
  pub port_field : Dict.get "port" config ≡ some (int (pos port))
  pub database_field : Dict.get "database" config ≡ some (text_or_null (without_slashes p.path))
  pub username_field : Dict.get "username" config ≡ some (text (unquoted urls.unquote p.username))
  pub password_field : Dict.get "password" config ≡ some (text (unquoted urls.unquote p.password))

-- Where the connector finds its database: a file, or a server.
abbrev pub Reaches : Urls → String → String → Dict Value → Type 0
Reaches urls conn_type uri config =
    ((conn_type ≡ "sqlite")
      × (path : String) × (config ≡ ("path", text path) ∷ [])
      × (str_eq path "" ≡ false)
      × IsPath uri path)
    ⊎ (p : Parsed) × (urls.urlparse uri ≡ some p) × IsServer urls conn_type p config

IsFile : String → Dict Value → Type 0
IsFile uri config =
    (path : String) × (config ≡ ("path", text path) ∷ [])
    × (str_eq path "" ≡ false)
    × IsPath uri path

path_config-IsFile :
    (uri path : String) (config : Dict Value)
    → IsPath uri path
    → path_config path ≡ config_of config
    → IsFile uri config
unfolding IsFile
path_config-IsFile uri path config is_path = elim (Bool-cases (str_eq path "")) [
  | inl empty ↦ rw empty (λ h. cc)
  | inr full ↦
      rw full
        (λ h. let same : ("path", text path) ∷ [] ≡ config = cc in (path, sym same, full, is_path))
]

sqlite_dsn-IsFile :
    (uri : String) (config : Dict Value) → sqlite_dsn uri ≡ config_of config → IsFile uri config
unfolding sqlite_dsn
sqlite_dsn-IsFile uri config = elim (Option-cases (cut "://" uri)) [
  | inl plain ↦ rw (plain, sqlite_dsn) (path_config-IsFile uri uri config (inl (plain, refl)))
  | inr ((scheme, rest), split) ↦ elim (Bool-cases (contains sqlite_schemes scheme)) [
    | inl known ↦
        rw (split, known, sqlite_dsn)
          (path_config-IsFile uri rest config (inr (scheme, split, known)))
    | inr unknown ↦ rw (split, unknown, sqlite_dsn) (λ h. cc)
  ]
]

abbrev server_keys : List String
server_keys = "host" ∷ "port" ∷ "database" ∷ "username" ∷ "password" ∷ []

-- A config in which the five fields are those of another.
abbrev Keeps : Dict Value → Dict Value → Type 0
Keeps base config =
    (key : String) → contains server_keys key ≡ true → Dict.get key config ≡ Dict.get key base

Keeps-put :
    (key : String) (v : Value) (base config : Dict Value)
    → contains server_keys key ≡ false
    → Keeps base config
    → Keeps base (Dict.put key v config)
Keeps-put key v base config other keeps at listed = elim (Bool-cases (str_eq key at)) [
  | inl same ↦
      let e : key ≡ at = (eq_iff key at).0 same in
      let clash : false ≡ true = sym other ∙ ap (contains server_keys) e ∙ listed in
      absurd (ground arith)
  | inr apart ↦ get-put key at v config ∙ rw apart (keeps at listed)
]

Keeps-put_given :
    (key : String) (f : String → String) (given : Option String) (base config : Dict Value)
    → contains server_keys key ≡ false
    → Keeps base config
    → Keeps base (put_given key f given config)
Keeps-put_given key f none base config other keeps = keeps
Keeps-put_given key f (some v) base config other keeps = elim (Bool-cases (str_eq v "")) [
  | inl empty ↦ rw empty keeps
  | inr full ↦ rw full (Keeps-put key (text (f v)) base config other keeps)
]

with_postgres-Keeps :
    (qs : Dict (List String)) (base : Dict Value) → Keeps base (with_postgres qs base)
unfolding with_postgres
with_postgres-Keeps qs base =
    let ssl_given = first qs ("sslmode" ∷ "ssl_mode" ∷ "ssl-mode" ∷ []) in
    let ssl = put_given "sslmode" (λ s. s) ssl_given base in
    let schemas = put_given "schemas" (λ s. s) (first qs ("schemas" ∷ [])) ssl in
    Keeps-put_given "replication_slot" (λ s. s) (first qs ("replication_slot" ∷ "slot" ∷ [])) base
      schemas refl
      (Keeps-put_given "schemas" (λ s. s) (first qs ("schemas" ∷ [])) base ssl refl
        (Keeps-put_given "sslmode" (λ s. s) ssl_given base base refl (λ key listed. refl)))

with_server_id-Keeps :
    (urls : Urls) (given : Option String) (base config result : Dict Value)
    → Keeps base config
    → with_server_id urls given config ≡ config_of result
    → Keeps base result
with_server_id-Keeps urls none base config result keeps =
    λ h. let same : config ≡ result = cc in subst (Keeps base) same keeps
with_server_id-Keeps urls (some v) base config result keeps = elim (Bool-cases (str_eq v "")) [
  | inl empty ↦ rw empty (λ h. let same : config ≡ result = cc in subst (Keeps base) same keeps)
  | inr full ↦ elim (Option-cases (urls.int_of v)) [
    | inl bad ↦ rw (full, bad) (λ h. cc)
    | inr (n, good) ↦
        rw (full, good)
          (λ h.
            let same : Dict.put "server_id" (int n) config ≡ result = cc in
            subst (Keeps base) same (Keeps-put "server_id" (int n) base config refl keeps))
  ]
]

with_options-Keeps :
    (urls : Urls) (conn_type : String) (p : Parsed) (base result : Dict Value)
    → with_options urls conn_type p base ≡ config_of result
    → Keeps base result
unfolding with_options with_mysql
with_options-Keeps urls conn_type p base result = elim (Bool-cases (str_eq conn_type "postgres")) [
  | inl pg ↦
      rw (pg, with_options)
        (λ h.
          let same : with_postgres (urls.parse_qs p.query) base ≡ result = cc in
          subst (Keeps base) same (with_postgres-Keeps (urls.parse_qs p.query) base))
  | inr other ↦
      let qs = urls.parse_qs p.query in
      let mode = first qs ("ssl_mode" ∷ "ssl-mode" ∷ "sslmode" ∷ []) in
      rw (other, with_options)
        (with_server_id-Keeps urls (first qs ("server_id" ∷ [])) base
          (put_given "ssl_mode" upper mode base) result
          (Keeps-put_given "ssl_mode" upper mode base base refl (λ key listed. refl)))
]

-- The five fields that were set are those that are kept.
with_options-IsServer :
    (urls : Urls) (conn_type : String) (p : Parsed) (default n : ℕ) (result : Dict Value)
    → IsKind conn_type (lower p.scheme) default
    → IsPort default p.port n
    → with_options urls conn_type p (base_config urls p n) ≡ config_of result
    → IsServer urls conn_type p result
unfolding base_config
with_options-IsServer urls conn_type p default n result kind given h =
    let keeps = with_options-Keeps urls conn_type p (base_config urls p n) result h in
    record {
      default = default;
      kind = kind;
      port = n;
      given = given;
      host_field = keeps "host" refl;
      port_field = keeps "port" refl;
      database_field = keeps "database" refl;
      username_field = keeps "username" refl;
      password_field = keeps "password" refl;
    }

with_port-IsServer :
    (urls : Urls) (conn_type : String) (p : Parsed) (default : ℕ) (given : Port)
    (result : Dict Value)
    → IsKind conn_type (lower p.scheme) default
    → p.port ≡ given
    → with_port urls conn_type p default given ≡ config_of result
    → IsServer urls conn_type p result
with_port-IsServer urls conn_type p default no_port result kind is h =
    with_options-IsServer urls conn_type p default default result kind (inr (inl is, refl)) h
with_port-IsServer urls conn_type p default bad_port result kind is h = cc
with_port-IsServer urls conn_type p default (port_of zero) result kind is h =
    with_options-IsServer urls conn_type p default default result kind (inr (inr is, refl)) h
with_port-IsServer urls conn_type p default (port_of (suc m)) result kind is h =
    with_options-IsServer urls conn_type p default (suc m) result kind (inl (is, ground arith)) h

-- Every scheme's type is one of the two, with its port.
expected-cases :
    (scheme : String)
    → (expected scheme ≡ none)
      ⊎ (type : String) × (n : ℕ) × (expected scheme ≡ some (type, n)) × IsKind type scheme n
expected-cases scheme = elim (Bool-cases (contains pg_schemes scheme)) [
  | inl pg ↦ inr ("postgres", 5432, rw pg refl, inl (refl, pg, refl))
  | inr other ↦ elim (Bool-cases (contains mysql_schemes scheme)) [
    | inl mysql ↦ inr ("mysql", 3306, rw (other, mysql) refl, inr (refl, mysql, refl))
    | inr unknown ↦ inl (rw (other, unknown) refl)
  ]
]

network_dsn-IsServer :
    (urls : Urls) (conn_type : String) (p : Parsed) (result : Dict Value)
    → network_dsn urls conn_type p ≡ config_of result
    → IsServer urls conn_type p result
unfolding network_dsn
network_dsn-IsServer urls conn_type p result = elim (expected-cases (lower p.scheme)) [
  | inl unknown ↦ rw (unknown, network_dsn) (λ h. cc)
  | inr (type, n, known, kind) ↦ elim (Bool-cases (str_eq conn_type type)) [
    | inr other ↦ rw (known, other, network_dsn) (λ h. cc)
    | inl same ↦
        rw (known, same, network_dsn)
          (with_port-IsServer urls conn_type p n p.port result
            (subst (λ t. IsKind t (lower p.scheme) n) (sym ((eq_iff conn_type type).0 same)) kind)
            refl)
  ]
]

-- The config of a connection string that is accepted. For SQLite it has a path alone, which is not
-- empty: what follows `://` after a scheme of SQLite, or the whole string where there is no `://`.
-- Otherwise the type is Postgres or MySQL and the scheme is one of that type: the host is that of
-- the address, or localhost; the port that of the address, unless it is absent or 0, and then 5432
-- or 3306; the database is the address's path without the slashes in front, null if that is empty;
-- the user name and the password are those of the address, unquoted. The options in the query
-- leave these five fields alone.
pub parse_dsn-Reaches :
    (urls : Urls) (conn_type uri : String) (config : Dict Value)
    → parse_dsn urls conn_type uri ≡ config_of config
    → Reaches urls conn_type (strip uri) config
unfolding parse_dsn IsFile
parse_dsn-Reaches urls conn_type uri config = elim (Bool-cases (str_eq (strip uri) "")) [
  | inl empty ↦ rw (empty, parse_dsn) (λ h. cc)
  | inr full ↦ elim (Bool-cases (str_eq conn_type "sqlite")) [
    | inl sqlite ↦
        rw (full, sqlite, parse_dsn)
          (λ h.
            let (path, is_config, full, is_path) = sqlite_dsn-IsFile (strip uri) config h in
            inl ((eq_iff conn_type "sqlite").0 sqlite, path, is_config, full, is_path))
    | inr network ↦ elim (Option-cases (urls.urlparse (strip uri))) [
      | inl bad ↦ rw (full, network, bad, parse_dsn) (λ h. cc)
      | inr (p, parsed) ↦
          rw (full, network, parsed, parse_dsn)
            (λ h. inr (p, refl, network_dsn-IsServer urls conn_type p config h))
    ]
  ]
]
