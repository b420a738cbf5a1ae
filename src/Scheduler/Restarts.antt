-- ===== src/Scheduler/Restarts.antt =====
-- How often the scheduler restarts a CDC worker that keeps failing.
use native.Mathlib.Nat.{pow-le-pow_right}
use holypipe.Prelude.{
  ◌∙◌, eq_iff, inr, sym, Bool-cases, inl, In, Option-cases, ℕ, ◌+◌, ◌-◌, ◌*◌, ◌^◌, ◌≤◌, ◌≡◌, refl,
  String, Bool, true, false, Option, none, some, List, [], ◌∷◌, arith, contains, leb, if◌then◌else◌,
  str_eq,
}
use holypipe.Dict
use holypipe.Dict.{Dict, get-put, get-pop}
use holypipe.Models.{Connection, second}
use holypipe.Supervisor.{running_ids}
use mathlib.Core.Path.{subst}
use holypipe.Scheduler.Jobs.{attempts_jobs}
use holypipe.Scheduler.{
  Scheduler, Backoff, delay, attempt, attempts, collect, tick, verdict, next_fails,
}

pow_ge : (n : ℕ) → 6 ≤ n → 64 ≤ 2 ^ n
pow_ge n h = pow-le-pow_right {n = 2} (omega arith) h

pow_le : (n : ℕ) → n ≤ 5 → 2 ^ n ≤ 32
pow_le n h = pow-le-pow_right {n = 2} (omega arith) h

-- The delay doubles from 5 seconds, and is 300 seconds from the seventh failure on; from failure
-- 1025 on there is no delay, but an exception.
delay_lem :
    (fails : ℕ)
    → delay fails ≡ (
        if leb 1025 fails
        then none
        else if leb 7 fails
        then some (300 * second)
        else some (5 * 2 ^ (fails - 1) * second))
unfolding delay
delay_lem fails = ground (arith, pow_ge (fails - 1), pow_le (fails - 1))

-- A connection that is not running and not cooling down.
record Stuck (running_cdc : List String) (mono : ℕ) (cid : String) (b : Backoff) (s : Scheduler)
    : Type 0 where
  down : contains running_cdc cid ≡ false
  noted : Dict.get cid s.backoffs ≡ some b
  over : 1024 ≤ b.fails
  cooled : b.next_attempt ≤ mono

attempt-Stuck :
    (running_cdc : List String) (mono : ℕ) (cid : String) (b : Backoff) (s : Scheduler)
    → Stuck running_cdc mono cid b s
    → attempt running_cdc mono cid s ≡ (s, false)
unfolding attempt delay
attempt-Stuck running_cdc mono cid b s k = rw (k.down, k.noted) (ground arith)

-- An attempt for one connection leaves the backoff of another as it is.
attempt_other :
    (running_cdc : List String) (mono : ℕ) (c cid : String) (s : Scheduler)
    → str_eq c cid ≡ false
    → Dict.get cid (attempt running_cdc mono c s).0.backoffs ≡ Dict.get cid s.backoffs
unfolding attempt
attempt_other running_cdc mono c cid s ne =
    elim (Option-cases (delay (next_fails (Dict.get c s.backoffs)))) [
      | inl e ↦ rw (e, attempt) (ground (arith, get-pop c cid s.backoffs))
      | inr (d, e) ↦
          rw (e, attempt)
            (ground (
              arith,
              get-pop c cid s.backoffs,
              get-put c cid
                  (record { fails = next_fails (Dict.get c s.backoffs); next_attempt = mono + d })
                  s.backoffs,
            ))
    ]

attempts-Stuck :
    (running_cdc : List String) (mono : ℕ) (cid : String) (b : Backoff) (cids : List String)
    (s : Scheduler)
    → contains cids cid ≡ true
    → Stuck running_cdc mono cid b s
    → ((attempts running_cdc mono cids s).1 ≡ false)
      × (Dict.get cid (attempts running_cdc mono cids s).0.backoffs ≡ some b)
unfolding attempts
attempts-Stuck running_cdc mono cid b [] s h k = cc
attempts-Stuck running_cdc mono cid b (c ∷ cids) s h k = elim (Bool-cases (str_eq c cid)) [
  | inl same ↦
      let e = (eq_iff c cid).0 same in
      rw
        (subst (λ x. attempt running_cdc mono x s ≡ (s, false)) (sym e)
          (attempt-Stuck running_cdc mono cid b s k))
        (refl, k.noted)
  | inr other ↦
      let kept = attempt_other running_cdc mono c cid s other ∙ k.noted in
      let later =
        attempts-Stuck running_cdc mono cid b cids (attempt running_cdc mono c s).0 (ground arith)
          (record { down = k.down; noted = kept; over = k.over; cooled = k.cooled }) in
      ground (arith, later, kept)
]

wanted_here :
    (cron : String → ℕ → Option ℕ) (now : ℕ) (c : Connection) (rows : List Connection)
    → In c rows
    → c.enabled ≡ true
    → str_eq c.mode "cdc" ≡ true
    → contains (collect cron now rows).2 c.id ≡ true
unfolding collect verdict
wanted_here cron now c [] m on cdc = absurd m
wanted_here cron now c (x ∷ rows) (inl e) on cdc =
    subst (λ y. contains (collect cron now (y ∷ rows)).2 c.id ≡ true) (sym e)
      (ground (arith, eq_iff c.id c.id))
wanted_here cron now c (x ∷ rows) (inr m) on cdc =
    ground (arith, wanted_here cron now c rows m on cdc)

-- Once a CDC connection has failed 1024 times, is down and has cooled down, every round raises
-- OverflowError: no job is submitted, although the next runs of the due rows are moved on, and
-- the connection's backoff stays, so that each later round raises again.
pub tick_stuck :
    (cron : String → ℕ → Option ℕ) (joins : String → Bool) (now mono wall : ℕ)
    (rows : List Connection) (s : Scheduler) (c : Connection) (b : Backoff)
    → In c rows
    → c.enabled ≡ true
    → str_eq c.mode "cdc" ≡ true
    → contains (running_ids s.supervisor) c.id ≡ false
    → Dict.get c.id s.backoffs ≡ some b
    → 1024 ≤ b.fails
    → b.next_attempt ≤ mono
    → let (rows', s', passed) = tick cron joins now mono wall rows s in
      (passed ≡ false)
      × (rows' ≡ (collect cron now rows).0)
      × (s'.jobs ≡ s.jobs)
      × (Dict.get c.id s'.backoffs ≡ some b)
unfolding tick
tick_stuck cron joins now mono wall rows s c b m on cdc down noted over cooled =
    let running_cdc = running_ids s.supervisor in
    let wanted_ids = (collect cron now rows).2 in
    let k : Stuck running_cdc mono c.id b s = record {
      down = down;
      noted = noted;
      over = over;
      cooled = cooled;
    } in
    let (raised, kept) =
      attempts-Stuck running_cdc mono c.id b wanted_ids s (wanted_here cron now c rows m on cdc)
        k in
    rw raised (refl, refl, (attempts_jobs running_cdc mono wanted_ids s).0, kept)
