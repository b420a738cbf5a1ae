-- ===== src/Scheduler.antt =====
-- engine/scheduler.py: one round of the scheduler, and the end of a job of its pool.
-- croniter is a parameter: `cron expression base` is `croniter(expression, base).get_next`, and
-- `none` its ValueError or KeyError. Dates do not overflow.
pub mod Jobs
pub mod Restarts
mod Tests
use holypipe.Prelude.{
  ℕ, suc, ◌+◌, ◌-◌, ◌*◌, ◌^◌, min, String, Bool, true, false, not, ◌&&◌, Option, none, some, List,
  [], ◌∷◌, ◌++◌, keep, contains, add, discard, ltb, leb, str_eq, if◌then◌else◌,
}
use holypipe.Prelude.Int.{max_ℕ}
use holypipe.Dict
use holypipe.Dict.{Dict}
use holypipe.Supervisor.{Supervisor, running_ids}
use holypipe.Supervisor
use holypipe.Models.{Connection, Status, second}

pub record Backoff : Type 0 where
  pub fails : ℕ
  pub next_attempt : ℕ

-- `jobs` are the connections submitted to the pool whose run has not ended.
pub record Scheduler : Type 0 where
  pub backoffs : Dict Backoff
  pub inflight : List String
  pub jobs : List String
  pub supervisor : Supervisor
  pub last_prune : ℕ
  pub prunes : ℕ

-- CDC_BACKOFF_BASE and CDC_BACKOFF_MAX, in seconds.
abbrev pub backoff_base : ℕ
backoff_base = 5

abbrev pub backoff_max : ℕ
backoff_max = 300

-- `min(CDC_BACKOFF_BASE * (2 ** (fails - 1)), CDC_BACKOFF_MAX)`. The base is a float, so the
-- integer power becomes one first: from 2 ** 1024 on that raises OverflowError, `none`.
pub delay : ℕ → Option ℕ
delay fails =
    if leb 1024 (fails - 1)
    then none
    else some (min (backoff_base * 2 ^ (fails - 1)) backoff_max * second)

-- What the round does with one enabled connection.
pub data Verdict : Type 0 where
  wanted skipped due : Verdict

abbrev is_running_status : Status → Bool
is_running_status Status.running = true
is_running_status _ = false

abbrev is_due : Option ℕ → ℕ → Bool
is_due none now = true
is_due (some next_run) now = leb next_run now

unfoldable pub verdict : ℕ → Connection → Verdict
verdict now c =
    if str_eq c.mode "cdc"
    then wanted
    else if is_running_status c.status
    then skipped
    else if is_due c.next_run_at now
    then due
    else skipped

module _ (cron : String → ℕ → Option ℕ) where
  interval_run : Connection → ℕ → ℕ
  interval_run c now = now + max_ℕ 5 c.interval_seconds * second

  abbrev cron_run : Connection → ℕ → Option String → ℕ
  cron_run c now none = interval_run c now
  cron_run c now (some expression) =
      if str_eq expression ""
      then interval_run c now
      else elim (cron expression now) [ some t ↦ t | none ↦ interval_run c now ]

  pub compute_next_run : Connection → ℕ → ℕ
  unfolding interval_run
  compute_next_run c now =
      if str_eq c.schedule_type "cron" then cron_run c now c.cron_expression else interval_run c now

  -- The rows with the next runs that were given, the due ids, and the wanted CDC ids.
  unfoldable pub collect : ℕ → List Connection → List Connection × List String × List String
  collect now [] = ([], [], [])
  collect now (c ∷ rows) =
      let (rows', due_ids, wanted_ids) = collect now rows in
      if c.enabled
      then elim (verdict now c) [
        | wanted ↦ (c ∷ rows', due_ids, c.id ∷ wanted_ids)
        | skipped ↦ (c ∷ rows', due_ids, wanted_ids)
        | due ↦ (
          record c { next_run_at = some (compute_next_run c now) } ∷ rows',
          c.id ∷ due_ids,
          wanted_ids,
        )
      ]
      else (c ∷ rows', due_ids, wanted_ids)

-- `(backoff["fails"] + 1) if backoff else 1`
abbrev next_fails : Option Backoff → ℕ
next_fails none = 1
next_fails (some b) = b.fails + 1

abbrev is_cooling : Option Backoff → ℕ → Bool
is_cooling none mono = false
is_cooling (some b) mono = ltb mono b.next_attempt

abbrev restart : String → ℕ → ℕ → Option ℕ → Scheduler → Scheduler × Bool
restart cid mono fails none s = (s, false)
restart cid mono fails (some delay) s = (
  record s {
    backoffs = Dict.put cid (record { fails = fails; next_attempt = mono + delay }) s.backoffs;
    supervisor = Supervisor.start cid s.supervisor;
  },
  true,
)

-- One pass of the loop over `cdc_wanted`; false if it raises.
pub attempt : List String → ℕ → String → Scheduler → Scheduler × Bool
attempt running_cdc mono cid s =
    if contains running_cdc cid
    then (record s { backoffs = Dict.pop cid s.backoffs }, true)
    else if is_cooling (Dict.get cid s.backoffs) mono
    then (s, true)
    else (let fails = next_fails (Dict.get cid s.backoffs) in
        restart cid mono fails (delay fails) s)

pub attempts : List String → ℕ → List String → Scheduler → Scheduler × Bool
attempts running_cdc mono [] s = (s, true)
attempts running_cdc mono (cid ∷ cids) s =
    let (s', passed) = attempt running_cdc mono cid s in
    let rest = attempts running_cdc mono cids s' in if passed then rest else (s', false)

-- One pass of the loop over `running_cdc`. `joins cid` says whether the thread ends within the
-- timeout.
pub stop_one : (String → Bool) → List String → String → Scheduler → Scheduler
stop_one joins wanted_ids cid s = if contains wanted_ids cid then s else record s {
  supervisor = Supervisor.stop cid (joins cid) s.supervisor;
  backoffs = Dict.pop cid s.backoffs;
}

pub stops : (String → Bool) → List String → List String → Scheduler → Scheduler
stops joins wanted_ids [] s = s
stops joins wanted_ids (cid ∷ cids) s =
    stops joins wanted_ids cids (stop_one joins wanted_ids cid s)

-- The due connections with no job in flight are noted as in flight and submitted.
pub submit : List String → Scheduler → Scheduler
submit [] s = s
submit (cid ∷ cids) s =
    submit cids (record s { inflight = add cid s.inflight; jobs = s.jobs ++ cid ∷ [] })

pub dispatch : List String → Scheduler → Scheduler
unfolding submit
dispatch due_ids s = submit (keep (λ cid. not (contains s.inflight cid)) due_ids) s

pub prune : ℕ → Scheduler → Scheduler
prune wall s =
    if ltb (300 * second) (wall - s.last_prune)
    then record s { last_prune = wall; prunes = suc s.prunes }
    else s

-- `_tick`. The round reads three clocks: `utcnow`, `time.monotonic` and `time.time`. False means
-- that it raised; the rows are committed by then.
pub tick :
    (String → ℕ → Option ℕ)
    → (String → Bool)
    → ℕ
    → ℕ
    → ℕ
    → List Connection
    → Scheduler
    → List Connection × Scheduler × Bool
tick cron joins now mono wall rows s =
    let (rows', due_ids, wanted_ids) = collect cron now rows in
    let running_cdc = running_ids s.supervisor in
    let (s', passed) = attempts running_cdc mono wanted_ids s in
    if passed
    then (rows', prune wall (dispatch due_ids (stops joins wanted_ids running_cdc s')), true)
    else (rows', s', false)

-- `_run_one`, when the sync has ended, by a return or an exception.
pub finish : String → Scheduler → Scheduler
finish cid s = record s { inflight = discard cid s.inflight; jobs = discard cid s.jobs }
