-- ===== src/Mcp/Resync.antt =====
-- The tool that resyncs against the handler that does.
use mathlib.Core.Path.{subst}
use holypipe.Api.{BackgroundTask, Api, find_connection}
use holypipe.Mcp.Syncs.{resync_tool_batch, resync_tool_cdc, resync_tool, resync_tool_found}
use holypipe.Models.{Connection}
use holypipe.Auth.{fail, ok, Result}
use holypipe.Prelude.{
  ◌≡◌, refl, inl, inr, String, Bool, true, false, not, List, [], ◌∷◌, ◌++◌, any, contains, str_eq,
  Bool-cases, Option-cases,
}
use holypipe.Api.Workers.{find_connection-id}
use holypipe.Api.Operate.{
  resync_found, resync_cdc, resync_batch, is_running_status, valid_names, is_given,
}
use holypipe.Mcp.{Returned, Reply, done, synced, connector, connection, streams, replied, raised}
use holypipe.Api.Operate.{resync_connection}

-- Whether a handler or a tool passed, and the jobs that a tool runs.
abbrev pub passed : {A : Type 0} → Result A → Bool
passed (ok a) = true
passed (fail status) = false

abbrev pub is_replied : Reply Returned → Bool
is_replied (replied a) = true
is_replied (raised r) = false

abbrev pub jobs_of : Reply Returned → List BackgroundTask
jobs_of (raised r) = []
jobs_of (replied (connector row)) = []
jobs_of (replied (connection conn)) = []
jobs_of (replied (streams ss)) = []
jobs_of (replied done) = []
jobs_of (replied (synced job)) = job ∷ []

-- The same outcome, but that the handler leaves the job for later.
abbrev Agrees : Result (List String) × Api → Reply Returned × Api → Api → Type 0
Agrees (result, handled) (reply, after) api =
    (passed result ≡ is_replied reply)
    × (handled ≡ record after { background_tasks = jobs_of reply ++ api.background_tasks })

resync_found-Agrees :
    (names : List String) (joined : Bool) (conn : Connection) (api : Api)
    → Agrees
        (resync_found names joined conn api)
        (resync_tool_found conn.id names joined conn api)
        api
unfolding resync_found resync_tool_found resync_cdc resync_batch resync_tool_cdc resync_tool_batch
resync_found-Agrees names joined conn api =
    elim (Bool-cases (any (λ name. not (contains (valid_names conn) name)) names)) [
      | inl unknown ↦ rw unknown (refl, refl)
      | inr known ↦ elim (Bool-cases (str_eq conn.mode "cdc")) [
        | inl cdc ↦ elim (Bool-cases (is_given names)) [
          | inl given ↦ rw (known, cdc, given) (refl, refl)
          | inr all_of ↦ rw (known, cdc, all_of) (refl, refl)
        ]
        | inr batch ↦ elim (Bool-cases (is_running_status conn.status)) [
          | inl running ↦ rw (known, batch, running) (refl, refl)
          | inr ended ↦ rw (known, batch, ended) (refl, refl)
        ]
      ]
    ]

-- The tool `resync_connection` and the handler of that name agree for every connection and every
-- choice of streams, up to where the tool runs its job: one passes exactly if the other does, and
-- both leave the same rows, cursors, cache and workers; the handler adds to the background tasks the
-- job that the tool runs at once.
pub resync_connection-resync_tool :
    (id : String) (names : List String) (joined : Bool) (api : Api)
    → let (result, handled) = resync_connection id names joined api in
      let (reply, after) = resync_tool id names joined api in
      (passed result ≡ is_replied reply)
      × (handled ≡ record after { background_tasks = jobs_of reply ++ api.background_tasks })
unfolding resync_connection resync_tool
resync_connection-resync_tool id names joined api =
    elim (Option-cases (find_connection id api.connections)) [
      | inl gone ↦ rw (gone, resync_connection, resync_tool) (refl, refl)
      | inr (conn, found) ↦
          let same = find_connection-id id api.connections conn found in
          rw (found, resync_connection, resync_tool)
            (subst
              (λ i.
                Agrees (resync_found names joined conn api)
                  (resync_tool_found i names joined conn api) api)
              same (resync_found-Agrees names joined conn api))
    ]
