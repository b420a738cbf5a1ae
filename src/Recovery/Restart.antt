-- ===== src/Recovery/Restart.antt =====
-- What recovery leaves of the two tables.
use mathlib.Core.Path.{ap₂}
use holypipe.Prelude.{
  ◌⊎◌, ℕ, ◌≡◌, refl, true, false, Bool, none, some, List, [], ◌∷◌, map, all, inl, inr, arith,
}
use holypipe.Models.{SyncRun, Connection, RunStatus, failed, Status, idle}
use holypipe.Recovery.{recover_run, recover_connection, recover_orphaned_state}

-- A run as it stands after a restart at a time, by its status before.
abbrev run_by : RunStatus → ℕ → SyncRun → SyncRun
run_by RunStatus.running now run = record run {
  status = failed;
  finished_at = some now;
  error = some "Interrupted — HolyPipe restarted while this run was in progress";
}
run_by RunStatus.success now run = run
run_by RunStatus.failed now run = run
run_by RunStatus.cancelled now run = run

abbrev pub run_after : ℕ → SyncRun → SyncRun
run_after now run = run_by run.status now run

-- A connection as it stands after a restart, by its status before.
abbrev connection_by : Status → Connection → Connection
connection_by Status.idle conn = conn
connection_by Status.running conn = record conn { status = idle; status_detail = none }
connection_by Status.streaming conn = record conn { status = idle; status_detail = none }
connection_by Status.error conn = conn

abbrev pub connection_after : Connection → Connection
connection_after conn = connection_by conn.status conn

-- The statuses of a run that is over, and of a connection that nothing runs.
abbrev is_over : RunStatus → Bool
is_over RunStatus.running = false
is_over RunStatus.success = true
is_over RunStatus.failed = true
is_over RunStatus.cancelled = true

abbrev pub is_over_run : SyncRun → Bool
is_over_run run = is_over run.status

abbrev is_resting : Status → Bool
is_resting Status.idle = true
is_resting Status.running = false
is_resting Status.streaming = false
is_resting Status.error = true

abbrev pub is_resting_connection : Connection → Bool
is_resting_connection conn = is_resting conn.status

RunStatus-cases :
    (s : RunStatus)
    → (s ≡ RunStatus.running)
      ⊎ (s ≡ RunStatus.success)
      ⊎ (s ≡ RunStatus.failed)
      ⊎ (s ≡ RunStatus.cancelled)
RunStatus-cases RunStatus.running = inl refl
RunStatus-cases RunStatus.success = inr (inl refl)
RunStatus-cases RunStatus.failed = inr (inr (inl refl))
RunStatus-cases RunStatus.cancelled = inr (inr (inr refl))

Status-cases :
    (s : Status)
    → (s ≡ Status.idle) ⊎ (s ≡ Status.running) ⊎ (s ≡ Status.streaming) ⊎ (s ≡ Status.error)
Status-cases Status.idle = inl refl
Status-cases Status.running = inr (inl refl)
Status-cases Status.streaming = inr (inr (inl refl))
Status-cases Status.error = inr (inr (inr refl))

recover_run_lem :
    (now later : ℕ) (run : SyncRun)
    → (recover_run now run ≡ run_after now run)
      × (is_over_run (recover_run now run) ≡ true)
      × (recover_run later (recover_run now run) ≡ recover_run now run)
unfolding recover_run
recover_run_lem now later run = elim (RunStatus-cases run.status) [
  | inl e ↦ rw (e, recover_run) (refl, refl, refl)
  | inr (inl e) ↦ rw (e, recover_run) (refl, refl, refl)
  | inr (inr (inl e)) ↦ rw (e, recover_run) (refl, refl, refl)
  | inr (inr (inr e)) ↦ rw (e, recover_run) (refl, refl, refl)
]

recover_connection_lem :
    (conn : Connection)
    → (recover_connection conn ≡ connection_after conn)
      × (is_resting_connection (recover_connection conn) ≡ true)
      × (recover_connection (recover_connection conn) ≡ recover_connection conn)
unfolding recover_connection
recover_connection_lem conn = elim (Status-cases conn.status) [
  | inl e ↦ rw (e, recover_connection) (refl, refl, refl)
  | inr (inl e) ↦ rw (e, recover_connection) (refl, refl, refl)
  | inr (inr (inl e)) ↦ rw (e, recover_connection) (refl, refl, refl)
  | inr (inr (inr e)) ↦ rw (e, recover_connection) (refl, refl, refl)
]

map-each :
    {A : Type 0} (f g later : A → A) (p : A → Bool)
    → ((x : A) → (f x ≡ g x) × (p (f x) ≡ true) × (later (f x) ≡ f x))
    → (xs : List A)
    → (map f xs ≡ map g xs) × (all p (map f xs) ≡ true) × (map later (map f xs) ≡ map f xs)
map-each f g later p each [] = (refl, refl, refl)
map-each f g later p each (x ∷ xs) =
    let (same, holds, stays) = each x in
    let (sames, hold, stay) = map-each f g later p each xs in
    (ap₂ (λ a b. a ∷ b) same sames, ground (arith, holds, hold), ap₂ (λ a b. a ∷ b) stays stay)

-- Whatever a crash left. A run whose status was `running` is failed, with this time as its end and
-- the text that it was interrupted; a run with any other status is as it was. A connection that
-- was running or streaming is idle, with no detail; one that was idle or showed an error is as it
-- was. So no run is running, and no connection runs or streams. A second recovery, at any later
-- time, changes nothing.
pub recover_orphaned_state-calm :
    (now later : ℕ) (runs : List SyncRun) (conns : List Connection)
    → let s = recover_orphaned_state now (runs, conns) in
      (s ≡ (map (run_after now) runs, map connection_after conns))
      × (all is_over_run s.0 ≡ true)
      × (all is_resting_connection s.1 ≡ true)
      × (recover_orphaned_state later s ≡ s)
unfolding recover_orphaned_state
recover_orphaned_state-calm now later runs conns =
    let (same, over, stay) =
      map-each (recover_run now) (run_after now) (recover_run later) is_over_run
        (recover_run_lem now later) runs in
    let (same', rest, stay') =
      map-each recover_connection connection_after recover_connection is_resting_connection
        recover_connection_lem conns in
    (ap₂ (λ a b. (a, b)) same same', over, rest, ap₂ (λ a b. (a, b)) stay stay')
