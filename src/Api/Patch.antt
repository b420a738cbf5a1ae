-- ===== src/Api/Patch.antt =====
-- `patch_connection`. A field of the body is unset (`none`), null (`some none`) or a value. A null
-- in a column that cannot hold it breaks the commit; `for stream in None` raises.
use holypipe.Api.Create.{text_or_empty, next_cron_fire}
use holypipe.Auth.{fail, ok, Result}
use holypipe.Models.{Connection, StreamDef}
use holypipe.Api.{
  with_connection, find_row, cdc_check, find_connection, type_of, is_mode, is_schedule, xmin_check,
  Api, first_failure, refuse,
}
use holypipe.Prelude.Int.{ℤ}
use holypipe.Prelude.{
  ℕ, String, Bool, true, false, not, ◌&&◌, ◌||◌, Option, none, some, List, [], ◌∷◌, any, str_eq,
  if◌then◌else◌,
}
use holypipe.Supervisor

-- ConnectionPatch of api/schemas.py
pub record ConnectionPatch : Type 0 where
  pub name : Option (Option String)
  pub mode : Option (Option String)
  pub schedule_type : Option (Option String)
  pub interval_seconds : Option (Option ℤ)
  pub cron_expression : Option (Option String)
  pub enabled : Option (Option Bool)
  pub destination_namespace : Option (Option String)
  pub table_prefix : Option (Option String)
  pub streams : Option (Option (List StreamDef))
  pub group_id : Option (Option String)

module _ {A : Type 0} where
  -- `data.get(key, old)`
  abbrev pub given_or : Option A → Option (Option A) → Option A
  given_or old none = old
  given_or old (some given) = given

  -- `setattr`, for a value that the column can hold; a null breaks the commit.
  abbrev pub set_or : A → Option (Option A) → A
  set_or old none = old
  set_or old (some none) = old
  set_or old (some (some new)) = new

  abbrev pub is_null : Option (Option A) → Bool
  is_null none = false
  is_null (some none) = true
  is_null (some (some a)) = false

  abbrev pub is_set : Option (Option A) → Bool
  is_set none = false
  is_set (some given) = true

abbrev pub schedule_check : Option (Option String) → Option ℕ
schedule_check none = none
schedule_check (some none) = none
schedule_check (some (some type)) = refuse 400 (not (is_schedule type))

abbrev pub mode_check : Option String → Option String → Option ℕ
mode_check none type = some 400
mode_check (some mode) type =
    first_failure (refuse 400 (not (is_mode mode)) ∷ cdc_check mode type ∷ [])

abbrev pub streams_check : Option (Option (List StreamDef)) → Option String → Option ℕ
streams_check none type = none
streams_check (some none) type = some 500
streams_check (some (some streams)) type = xmin_check streams type

-- The checks before the columns are set.
unfoldable pub patch_checks : ConnectionPatch → Connection → Option String → Option ℕ
patch_checks body conn type = first_failure (
    schedule_check body.schedule_type
    ∷ mode_check (given_or (some conn.mode) body.mode) type
    ∷ streams_check body.streams type
    ∷ [])

unfoldable pub patched : ConnectionPatch → Connection → Connection
patched body conn = record conn {
  name = set_or conn.name body.name;
  mode = set_or conn.mode body.mode;
  schedule_type = set_or conn.schedule_type body.schedule_type;
  interval_seconds = set_or conn.interval_seconds body.interval_seconds;
  cron_expression = given_or conn.cron_expression body.cron_expression;
  enabled = set_or conn.enabled body.enabled;
  destination_namespace = given_or conn.destination_namespace body.destination_namespace;
  table_prefix = set_or conn.table_prefix body.table_prefix;
  streams = set_or conn.streams body.streams;
  group_id = given_or conn.group_id body.group_id;
}

-- `conn.schedule_type == "cron"` once the columns are set.
abbrev is_cron : Option String → Bool
is_cron none = false
is_cron (some type) = str_eq type "cron"

abbrev pub now_cron : ConnectionPatch → Connection → Bool
now_cron body conn = is_cron (given_or (some conn.schedule_type) body.schedule_type)

abbrev pub mode_changed : ConnectionPatch → Connection → Bool
mode_changed body conn = not (str_eq (set_or conn.mode body.mode) conn.mode)

abbrev schedule_changed : ConnectionPatch → Bool
schedule_changed body = is_set body.schedule_type || is_set body.cron_expression

abbrev set_time : Connection → Result ℕ → Result Connection
set_time conn (ok at) = ok (record conn { next_run_at = some at })
set_time conn (fail status) = fail status

unfoldable pub next_run :
    (String → ℕ → Option ℕ) → ℕ → ConnectionPatch → Connection → Connection → Result Connection
next_run next_cron now body conn new =
    let fire = next_cron_fire next_cron (text_or_empty new.cron_expression) now in
    let is_batch = str_eq new.mode "batch" in
    if mode_changed body conn && is_batch
    then ok (record new { next_run_at = some now })
    else if schedule_changed body && is_batch && now_cron body conn
    then set_time new fire
    else ok new

-- The constraints of the table at the commit.
unfoldable pub commit_check : ConnectionPatch → Connection → List Connection → Option ℕ
commit_check body new conns = refuse 500 (
    is_null body.name
    || is_null body.schedule_type
    || is_null body.interval_seconds
    || is_null body.enabled
    || is_null body.table_prefix
    || any (λ (conn : Connection). str_eq conn.name new.name && not (str_eq conn.id new.id)) conns)

abbrev stop_if : Bool → String → Bool → Api → Api
stop_if due id joined api =
    if due then record api { supervisor = Supervisor.stop id joined api.supervisor } else api

unfoldable pub patch_found :
    (String → ℕ → Option ℕ)
    → ℕ
    → Bool
    → ConnectionPatch
    → Connection
    → Api
    → Result Connection × Api
unfolding patch_checks patched next_run commit_check Supervisor.stop
patch_found next_cron now joined body conn api =
    elim (patch_checks body conn (type_of (find_row conn.source_id api.sources))) [
      | some status ↦ (fail status, api)
      | none ↦
          if now_cron body conn && str_eq (text_or_empty (patched body conn).cron_expression) ""
          then (fail 400, api)
          else elim (next_run next_cron now body conn (patched body conn)) [
            | fail status ↦ (fail status, api)
            | ok new ↦ elim (commit_check body new api.connections) [
              | some status ↦ (fail status, api)
              | none ↦ (
                ok new,
                stop_if (mode_changed body conn && str_eq new.mode "batch") conn.id joined
                    (with_connection new api),
              )
            ]
          ]
    ]

-- `joined` says whether the worker's thread ends in time.
unfoldable pub patch_connection :
    (String → ℕ → Option ℕ) → String → ℕ → Bool → ConnectionPatch → Api → Result Connection × Api
unfolding patch_found
patch_connection next_cron id now joined body api = elim (find_connection id api.connections) [
  | none ↦ (fail 404, api)
  | some conn ↦ patch_found next_cron now joined body conn api
]
