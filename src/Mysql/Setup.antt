-- ===== src/Mysql/Setup.antt =====
-- The arguments of a connection, `setup_cdc`, and `discover` of the rows that its queries return.
use holypipe.Connector.Values.{get_or, IntOf, is_truthy}
use holypipe.Connector.{value_or_null}
use holypipe.Text.{upper}
use holypipe.Prelude.{
  ℕ, String, Bool, true, false, not, ◌||◌, Option, none, some, str_eq, if◌then◌else◌,
}
use holypipe.Dict
use holypipe.Prelude.{◌>>=◌}
use holypipe.Models.{Value, null, bool, int, float, text, time, bytes}
use holypipe.Prelude.Int.{ℤ, pos}
use holypipe.Dict.{get-put, Dict}

-- `log_bin` and `binlog_format` are the values of the server's variables, `master` its position.
pub record Server : Type 0 where
  pub log_bin : Option String
  pub binlog_format : Option String
  pub master : Option (String × ℕ)

abbrev pub is_on : Option String → Bool
is_on none = false
is_on (some value) = str_eq (upper value) "ON" || str_eq (upper value) "1"

abbrev pub is_row : Option String → Bool
is_row none = true
is_row (some value) = str_eq (upper value) "ROW"

abbrev pub with_master : Option (String × ℕ) → Dict Value → Dict Value
with_master none state = state
with_master (some (file, at)) state =
    Dict.put "log_pos" (int (pos at)) (Dict.put "log_file" (text file) state)

abbrev pub with_position : Server → Dict Value → Dict Value
with_position server state =
    if is_truthy (value_or_null (Dict.get "log_file" state))
    then state
    else with_master server.master state

-- `state.setdefault("server_id", ...)`
abbrev pub set_default : ℤ → Option Value → Dict Value → Dict Value
set_default id none state = Dict.put "server_id" (int id) state
set_default id (some v) state = state

abbrev with_server_id : ℤ → Dict Value → Dict Value
with_server_id id state = set_default id (Dict.get "server_id" state) state

-- `setup_cdc`, with the config; `none` is an exception.
unfoldable pub setup_cdc : IntOf → Dict Value → Server → Dict Value → Option (Dict Value)
unfolding upper
setup_cdc int_of config server state =
    if not (is_on server.log_bin)
    then none
    else if not (is_row server.binlog_format)
    then none
    else elim (int_of (get_or "server_id" (int (pos 1047200)) config)) [
      | none ↦ none
      | some id ↦ some (with_server_id id (with_position server state))
    ]

pub record SslOptions : Type 0 where
  pub ca : Option Value
  pub cert : Option Value
  pub key : Option Value
  pub check_hostname : Bool

-- The arguments that the config sets; the character set, the cursor's class and the switch for
-- commits are the same for all.
pub record ConnectArgs : Type 0 where
  pub host : Value
  pub port : ℤ
  pub db : Option Value
  pub user : Value
  pub password : Value
  pub connect_timeout : ℤ
  pub ssl : Option SslOptions

abbrev if_truthy : Option Value → Option Value
if_truthy none = none
if_truthy (some v) = if is_truthy v then some v else none

-- `(config.get("ssl_mode") or "DISABLED").upper()`, for a text.
abbrev mode_text : Option Value → Option String
mode_text none = some "DISABLED"
mode_text (some (text s)) = some (if str_eq s "" then "DISABLED" else upper s)
mode_text (some null) = some "DISABLED"
mode_text (some (bool b)) = if b then none else some "DISABLED"
mode_text (some (int i)) = if is_truthy (int i) then none else some "DISABLED"
mode_text (some (float bits)) = if is_truthy (float bits) then none else some "DISABLED"
mode_text (some (time at)) = none
mode_text (some (bytes bs)) = if is_truthy (bytes bs) then none else some "DISABLED"

abbrev ssl_of : Dict Value → String → Option SslOptions
ssl_of config mode =
    if str_eq mode "DISABLED"
    then none
    else some (record {
      ca = if_truthy (Dict.get "ssl_ca" config);
      cert = if_truthy (Dict.get "ssl_cert" config);
      key = if_truthy (Dict.get "ssl_key" config);
      check_hostname = str_eq mode "VERIFY_IDENTITY";
    })

-- `_conn_kwargs`; `none` is an exception.
unfoldable pub conn_kwargs : IntOf → Dict Value → Option ConnectArgs
unfolding upper
conn_kwargs int_of config = do
  port ← int_of (get_or "port" (int (pos 3306)) config)
  connect_timeout ← int_of (get_or "connect_timeout" (int (pos 10)) config)
  mode ← mode_text (Dict.get "ssl_mode" config)
  some (record {
    host = get_or "host" (text "localhost") config;
    port = port;
    db = Dict.get "database" config;
    user = get_or "username" (text "root") config;
    password = get_or "password" (text "") config;
    connect_timeout = connect_timeout;
    ssl = ssl_of config mode;
  })
