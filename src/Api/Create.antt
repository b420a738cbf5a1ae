-- ===== src/Api/Create.antt =====
-- `create_connection`. `next_cron` is the cron library: the next time that an expression names
-- after a time, or `none` for an invalid one.
use holypipe.Api.{
  first_failure, xmin_check, is_schedule, cdc_check, is_mode, find_row, refuse, Api, ConnectorRow,
}
use holypipe.Auth.{fail, ok, Result}
use holypipe.Models.{StreamDef, idle, Connection, State}
use holypipe.Prelude.Int.{ℤ}
use holypipe.Prelude.{
  ℕ, String, Bool, false, not, ◌&&◌, Option, none, some, List, [], ◌∷◌, ◌++◌, any, str_eq,
  if◌then◌else◌,
}

-- ConnectionIn of api/schemas.py
pub record ConnectionIn : Type 0 where
  pub name : String
  pub source_id : String
  pub destination_id : String
  pub mode : String
  pub schedule_type : String
  pub interval_seconds : ℤ
  pub cron_expression : Option String
  pub enabled : Bool
  pub destination_namespace : Option String
  pub table_prefix : String
  pub group_id : Option String
  pub streams : List StreamDef

abbrev pub no_state : State
no_state = record { cursors = none; snapshot_done = false; position = [] }

abbrev pub text_or_empty : Option String → String
text_or_empty none = ""
text_or_empty (some s) = s

abbrev cron_time : Option ℕ → Result ℕ
cron_time none = fail 400
cron_time (some at) = ok at

-- `_next_cron_fire`
abbrev pub next_cron_fire : (String → ℕ → Option ℕ) → String → ℕ → Result ℕ
next_cron_fire next_cron expression now = cron_time (next_cron expression now)

unfoldable pub create_checks : ConnectionIn → String → List Connection → Option ℕ
create_checks body type conns = first_failure (
    refuse 400 (not (is_mode body.mode))
    ∷ cdc_check body.mode (some type)
    ∷ refuse 400 (not (is_schedule body.schedule_type))
    ∷ xmin_check body.streams (some type)
    ∷ refuse 409 (any (λ (conn : Connection). str_eq conn.name body.name) conns)
    ∷ [])

unfoldable pub first_run : (String → ℕ → Option ℕ) → ℕ → ConnectionIn → Result ℕ
first_run next_cron now body =
    if str_eq body.mode "batch" && str_eq body.schedule_type "cron"
    then next_cron_fire next_cron (text_or_empty body.cron_expression) now
    else ok now

abbrev connection_of : String → ℕ → ConnectionIn → Connection
connection_of id next_run body = record {
  id = id;
  name = body.name;
  source_id = body.source_id;
  destination_id = body.destination_id;
  mode = body.mode;
  schedule_type = body.schedule_type;
  interval_seconds = body.interval_seconds;
  cron_expression = body.cron_expression;
  enabled = body.enabled;
  destination_namespace = body.destination_namespace;
  table_prefix = body.table_prefix;
  group_id = body.group_id;
  streams = body.streams;
  state = no_state;
  status = idle;
  status_detail = none;
  last_run_at = none;
  next_run_at = some next_run;
}

abbrev both : Option ConnectorRow → Option ConnectorRow → Option ConnectorRow
both none destination = none
both (some source) none = none
both (some source) (some destination) = some source

unfoldable pub create_connection :
    (String → ℕ → Option ℕ) → String → ℕ → ConnectionIn → Api → Result Connection × Api
unfolding create_checks first_run
create_connection next_cron id now body api =
    elim (both (find_row body.source_id api.sources)
      (find_row body.destination_id api.destinations)) [
        | none ↦ (fail 404, api)
        | some source ↦ elim (create_checks body source.type api.connections) [
          | some status ↦ (fail status, api)
          | none ↦ elim (first_run next_cron now body) [
            | fail status ↦ (fail status, api)
            | ok at ↦ (
              ok (connection_of id at body),
              record api { connections = api.connections ++ connection_of id at body ∷ [] },
            )
          ]
        ]
      ]
