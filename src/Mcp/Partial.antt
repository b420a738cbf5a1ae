-- ===== src/Mcp/Partial.antt =====
-- `update_connection` of the tools, called with some arguments only.
use holypipe.Api.Create.{text_or_empty}
use holypipe.Auth.{ok, fail, Result}
use holypipe.Models.{Connection}
use holypipe.Api.Patch.{
  next_run, patched, streams_check, mode_check, now_cron, schedule_check, patch_connection,
  commit_check, is_null, patch_found, patch_checks,
}
use holypipe.Api.{find_connection, find_row, type_of, Api, first_failure}
use holypipe.Mcp.{
  http_status, crashed, connection, from_result, raised, Refusal, World, update_connection,
  patch_of, ConnectionArgs,
}
use holypipe.Prelude.{
  ℕ, ◌≡◌, refl, inl, inr, String, Bool, true, false, ◌&&◌, ◌||◌, Option, none, some, List, [], ◌∷◌,
  arith, ◌==◌, str_eq, Bool-cases, Option-cases,
}

-- An argument that the table must have is left out.
abbrev pub is_partial : ConnectionArgs → Bool
is_partial args =
    (is_null (patch_of args).mode || is_null (patch_of args).streams)
    || is_null (patch_of args).name
    || is_null (patch_of args).schedule_type
    || is_null (patch_of args).interval_seconds
    || is_null (patch_of args).enabled
    || is_null (patch_of args).table_prefix

first_failure-cons :
    (c : Option ℕ) (checks : List (Option ℕ))
    → (status : ℕ) × (first_failure checks ≡ some status)
    → (status : ℕ) × (first_failure (c ∷ checks) ≡ some status)
first_failure-cons none checks h = h
first_failure-cons (some status) checks h = (status, refl)

-- A null mode or null streams fail a check.
patch_checks-null :
    (args : ConnectionArgs) (conn : Connection) (type : Option String)
    → (is_null (patch_of args).mode || is_null (patch_of args).streams) ≡ true
    → (status : ℕ) × (patch_checks (patch_of args) conn type ≡ some status)
unfolding patch_checks
patch_checks-null args conn type null =
    let by_schedule = schedule_check (patch_of args).schedule_type in
    let by_mode = mode_check args.mode type in
    let by_streams = streams_check (patch_of args).streams type in
    first_failure-cons by_schedule (by_mode ∷ by_streams ∷ []) (elim (Option-cases args.mode) [
      | inl unset ↦ rw unset (400, refl)
      | inr (mode, set) ↦
          first_failure-cons by_mode (by_streams ∷ []) (elim (Option-cases args.streams) [
            | inl unset ↦ rw unset (500, refl)
            | inr (streams, given) ↦ ground arith
          ])
    ])

-- A null that the table cannot hold fails the commit.
commit_check-null :
    (args : ConnectionArgs) (new : Connection) (conns : List Connection)
    → is_partial args ≡ true
    → (is_null (patch_of args).mode || is_null (patch_of args).streams) ≡ false
    → commit_check (patch_of args) new conns ≡ some 500
unfolding commit_check
commit_check-null args new conns partial checked = ground arith

-- A request that fails, and changes nothing.
abbrev pub IsRejected : Api → Result Connection × Api → Type 0
IsRejected api (result, after) = (after ≡ api) × (status : ℕ) × (result ≡ fail status)

-- Behind the checks.
saved-partial :
    (next_cron : String → ℕ → Option ℕ) (now : ℕ) (joined : Bool) (args : ConnectionArgs)
    (conn : Connection) (api : Api) (saved : Result Connection)
    → is_partial args ≡ true
    → (is_null (patch_of args).mode || is_null (patch_of args).streams) ≡ false
    → patch_checks (patch_of args) conn (type_of (find_row conn.source_id api.sources)) ≡ none
    → (now_cron (patch_of args) conn
        && str_eq (text_or_empty (patched (patch_of args) conn).cron_expression) "")
      ≡ false
    → next_run next_cron now (patch_of args) conn (patched (patch_of args) conn) ≡ saved
    → IsRejected api (patch_found next_cron now joined (patch_of args) conn api)
unfolding patch_found
saved-partial next_cron now joined args conn api (fail status) partial checked passed cron next =
    rw (passed, cron, next, patch_found) (refl, status, refl)
saved-partial next_cron now joined args conn api (ok new) partial checked passed cron next =
    rw (passed, cron, next, commit_check-null args new api.connections partial checked, patch_found)
      (refl, 500, refl)

patch_found-partial :
    (next_cron : String → ℕ → Option ℕ) (now : ℕ) (joined : Bool) (args : ConnectionArgs)
    (conn : Connection) (api : Api)
    → is_partial args ≡ true
    → IsRejected api (patch_found next_cron now joined (patch_of args) conn api)
unfolding patch_found
patch_found-partial next_cron now joined args conn api partial =
    let body = patch_of args in
    let type = type_of (find_row conn.source_id api.sources) in
    elim (Option-cases (patch_checks body conn type)) [
      | inr (status, failed) ↦ rw (failed, patch_found) (refl, status, refl)
      | inl passed ↦ elim (Bool-cases (is_null body.mode || is_null body.streams)) [
        | inl null ↦
            let (status, failed) = patch_checks-null args conn type null in
            rw (failed, patch_found) (refl, status, refl)
        | inr checked ↦
            elim (Bool-cases (
              now_cron body conn
              && str_eq (text_or_empty (patched body conn).cron_expression) "")) [
                | inl no_cron ↦ rw (passed, no_cron, patch_found) (refl, 400, refl)
                | inr cron ↦
                    saved-partial next_cron now joined args conn api _ partial checked passed cron
                      refl
              ]
      ]
    ]

patch_connection-partial :
    (next_cron : String → ℕ → Option ℕ) (id : String) (now : ℕ) (joined : Bool)
    (args : ConnectionArgs) (api : Api)
    → is_partial args ≡ true
    → IsRejected api (patch_connection next_cron id now joined (patch_of args) api)
unfolding patch_connection
patch_connection-partial next_cron id now joined args api partial =
    elim (Option-cases (find_connection id api.connections)) [
      | inl missing ↦ rw (missing, patch_connection) (refl, 404, refl)
      | inr (conn, found) ↦
          rw (found, patch_connection)
            (patch_found-partial next_cron now joined args conn api partial)
    ]

from_result-fail :
    (api : Api) (r : Result Connection × Api)
    → IsRejected api r
    → let (reply, after) = from_result connection r in
      (after ≡ api) × (refusal : Refusal) × (reply ≡ raised refusal)
from_result-fail api (ok conn, after) (same, status, e) = ground arith
from_result-fail api (fail status, after) (same, code, e) = elim (Bool-cases (status == 500)) [
  | inl crash ↦ rw crash (same, crashed, refl)
  | inr other ↦ rw other (same, http_status status, refl)
]

-- A call that leaves out the name, the mode, the schedule's type, the interval, the switch, the
-- table's prefix or the streams is refused, and rows, cache and workers stay as they were: an
-- argument that is left out does not count as unchanged.
pub update_connection-partial :
    (w : World) (id : String) (args : ConnectionArgs) (api : Api)
    → is_partial args ≡ true
    → let (reply, after) = update_connection w id args api in
      (after ≡ api) × (refusal : Refusal) × (reply ≡ raised refusal)
unfolding update_connection
update_connection-partial w id args api partial =
    from_result-fail api (patch_connection w.next_cron id w.now w.joined (patch_of args) api)
      (patch_connection-partial w.next_cron id w.now w.joined args api partial)
