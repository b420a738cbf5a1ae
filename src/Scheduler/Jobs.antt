-- ===== src/Scheduler/Jobs.antt =====
-- The pool never holds two jobs of one connection.
use holypipe.Prelude.{
  contains-append, sym, ◌&&◌, ◌++◌, ◌∙◌, eq_iff, inr, contains-add, discard, inl, not, Bool-cases,
  add, ap, keep, Option, ℕ, ◌≡◌, refl, String, Bool, false, List, [], ◌∷◌, arith, map, contains,
}
use holypipe.Models.{Connection}
use mathlib.Core.Path.{subst}
use holypipe.Supervisor.{running_ids}
use holypipe.Scheduler.{
  stop_one, Scheduler, collect, attempt, attempts, stops, submit, dispatch, prune, tick, finish,
}

abbrev pub Distinct : List String → Type 0
Distinct [] = Unit
Distinct (x ∷ xs) = (contains xs x ≡ false) × Distinct xs

abbrev pub ids : List Connection → List String
ids = map (λ c. c.id)

-- The rounds and the ends of jobs, in any order. The answers of the environment, its clocks, the
-- rows, and which threads can be joined, differ from round to round.
pub data Move : Type 0 where
  ticks : (String → Bool) → ℕ → ℕ → ℕ → List Connection → Move
  finishes : String → Move

pub step : (String → ℕ → Option ℕ) → Scheduler → Move → Scheduler
step cron s (ticks joins now mono wall rows) = (tick cron joins now mono wall rows s).1
step cron s (finishes cid) = finish cid s

pub run : (String → ℕ → Option ℕ) → Scheduler → List Move → Scheduler
run cron s [] = s
run cron s (m ∷ moves) = run cron (step cron s m) moves

-- The id of a row is its primary key.
abbrev pub Keyed : List Move → Type 0
Keyed [] = Unit
Keyed (ticks joins now mono wall rows ∷ moves) = Distinct (ids rows) × Keyed moves
Keyed (finishes cid ∷ moves) = Keyed moves

pub record IsExclusive (s : Scheduler) : Type 0 where
  pub same : s.jobs ≡ s.inflight
  pub distinct : Distinct s.inflight

module _ (cron : String → ℕ → Option ℕ) (now : ℕ) where
  not_due :
      (rows : List Connection) (cid : String)
      → contains (ids rows) cid ≡ false
      → contains (collect cron now rows).1 cid ≡ false
  unfolding collect
  not_due [] cid h = refl
  not_due (c ∷ rows) cid h = ground (arith, not_due rows cid)

  due-Distinct : (rows : List Connection) → Distinct (ids rows) → Distinct (collect cron now rows).1
  unfolding collect
  due-Distinct [] h = tt
  due-Distinct (c ∷ rows) h = ground (arith, due-Distinct rows h.1, not_due rows c.id h.0)

-- The loops over CDC connections leave the jobs alone.
attempt_jobs :
    (running_cdc : List String) (mono : ℕ) (cid : String) (s : Scheduler)
    → ((attempt running_cdc mono cid s).0.jobs ≡ s.jobs)
      × ((attempt running_cdc mono cid s).0.inflight ≡ s.inflight)
unfolding attempt
attempt_jobs running_cdc mono cid s = ground arith

pub attempts_jobs :
    (running_cdc : List String) (mono : ℕ) (cids : List String) (s : Scheduler)
    → ((attempts running_cdc mono cids s).0.jobs ≡ s.jobs)
      × ((attempts running_cdc mono cids s).0.inflight ≡ s.inflight)
unfolding attempts
attempts_jobs running_cdc mono [] s = (refl, refl)
attempts_jobs running_cdc mono (cid ∷ cids) s = ground (
  arith,
  attempt_jobs running_cdc mono cid s,
  attempts_jobs running_cdc mono cids (attempt running_cdc mono cid s).0,
)

stop_one_jobs :
    (joins : String → Bool) (wanted_ids : List String) (cid : String) (s : Scheduler)
    → ((stop_one joins wanted_ids cid s).jobs ≡ s.jobs)
      × ((stop_one joins wanted_ids cid s).inflight ≡ s.inflight)
unfolding stop_one
stop_one_jobs joins wanted_ids cid s = ground arith

stops_jobs :
    (joins : String → Bool) (wanted_ids cids : List String) (s : Scheduler)
    → ((stops joins wanted_ids cids s).jobs ≡ s.jobs)
      × ((stops joins wanted_ids cids s).inflight ≡ s.inflight)
unfolding stops
stops_jobs joins wanted_ids [] s = (refl, refl)
stops_jobs joins wanted_ids (cid ∷ cids) s =
    let s' = stop_one joins wanted_ids cid s in
    let one = stop_one_jobs joins wanted_ids cid s in
    let rest = stops_jobs joins wanted_ids cids s' in (rest.0 ∙ one.0, rest.1 ∙ one.1)

Distinct-snoc :
    (xs : List String) (a : String) → contains xs a ≡ false → Distinct xs → Distinct (xs ++ a ∷ [])
Distinct-snoc [] a new d = (refl, tt)
Distinct-snoc (x ∷ xs) a new d =
    ground (arith, Distinct-snoc xs a, d.1, contains-append xs (a ∷ []) x, eq_iff a x, eq_iff x a)

contains-keep :
    (p : String → Bool) (xs : List String) (a : String)
    → contains (keep p xs) a ≡ (p a && contains xs a)
contains-keep p [] a = ground arith
contains-keep p (x ∷ xs) a = ground (arith, contains-keep p xs a, eq_iff x a)

Distinct-keep : (p : String → Bool) (xs : List String) → Distinct xs → Distinct (keep p xs)
Distinct-keep p [] d = tt
Distinct-keep p (x ∷ xs) d = ground (arith, Distinct-keep p xs d.1, contains-keep p xs x)

-- None of the ids is in flight.
abbrev Idle : List String → List String → Type 0
Idle inflight [] = Unit
Idle inflight (cid ∷ cids) = (contains inflight cid ≡ false) × Idle inflight cids

Idle-add :
    (inflight : List String) (cid : String) (cids : List String)
    → contains cids cid ≡ false
    → Idle inflight cids
    → Idle (add cid inflight) cids
Idle-add inflight cid [] new idle = tt
Idle-add inflight cid (d ∷ cids) new idle = ground (
  arith,
  Idle-add inflight cid cids,
  idle.1,
  contains-add inflight cid d,
  eq_iff cid d,
  eq_iff d cid,
)

Idle-keep :
    (inflight xs : List String) → Idle inflight (keep (λ cid. not (contains inflight cid)) xs)
Idle-keep inflight [] = tt
Idle-keep inflight (x ∷ xs) = ground (arith, Idle-keep inflight xs)

submit-IsExclusive :
    (cids : List String) (s : Scheduler)
    → Distinct cids
    → Idle s.inflight cids
    → IsExclusive s
    → IsExclusive (submit cids s)
unfolding submit
submit-IsExclusive [] s d idle v = v
submit-IsExclusive (cid ∷ cids) s d idle v =
    submit-IsExclusive cids _ d.1 (Idle-add s.inflight cid cids d.0 idle.1) (record {
      same = rw (idle.0, v.same);
      distinct = rw idle.0 (Distinct-snoc s.inflight cid idle.0 v.distinct);
    })

dispatch-IsExclusive :
    (due_ids : List String) (s : Scheduler)
    → Distinct due_ids
    → IsExclusive s
    → IsExclusive (dispatch due_ids s)
unfolding dispatch
dispatch-IsExclusive due_ids s d v =
    submit-IsExclusive _ s (Distinct-keep _ due_ids d) (Idle-keep s.inflight due_ids) v

prune-IsExclusive : (wall : ℕ) (s : Scheduler) → IsExclusive s → IsExclusive (prune wall s)
unfolding prune
prune-IsExclusive wall s v = ground arith

-- What leaves jobs and flights alone keeps them exclusive.
IsExclusive-same :
    (s t : Scheduler)
    → (t.jobs ≡ s.jobs) × (t.inflight ≡ s.inflight)
    → IsExclusive s
    → IsExclusive t
IsExclusive-same s t e v = record {
  same = e.0 ∙ v.same ∙ sym e.1;
  distinct = subst Distinct (sym e.1) v.distinct;
}

tick-IsExclusive :
    (cron : String → ℕ → Option ℕ) (joins : String → Bool) (now mono wall : ℕ)
    (rows : List Connection) (s : Scheduler)
    → Distinct (ids rows)
    → IsExclusive s
    → IsExclusive (tick cron joins now mono wall rows s).1
unfolding tick
tick-IsExclusive cron joins now mono wall rows s d v =
    let (rows', due_ids, wanted_ids) = collect cron now rows in
    let running_cdc = running_ids s.supervisor in
    let s1 = (attempts running_cdc mono wanted_ids s).0 in
    let v1 = IsExclusive-same s s1 (attempts_jobs running_cdc mono wanted_ids s) v in
    let s2 = stops joins wanted_ids running_cdc s1 in
    let v2 = IsExclusive-same s1 s2 (stops_jobs joins wanted_ids running_cdc s1) v1 in
    let v3 =
      prune-IsExclusive wall _
        (dispatch-IsExclusive due_ids s2 (due-Distinct cron now rows d) v2) in
    elim (Bool-cases (attempts running_cdc mono wanted_ids s).1) [
      | inl passed ↦ rw passed v3
      | inr raised ↦ rw raised v1
    ]

finish-IsExclusive : (cid : String) (s : Scheduler) → IsExclusive s → IsExclusive (finish cid s)
unfolding finish
finish-IsExclusive cid s v = record {
  same = ap (discard cid) v.same;
  distinct = Distinct-keep _ s.inflight v.distinct;
}

-- From a scheduler with no job twice, whatever rounds and ends of jobs follow, raising rounds
-- included, the jobs of the pool are the connections noted as in flight, and no connection has
-- two of them.
pub run-IsExclusive :
    (cron : String → ℕ → Option ℕ) (s : Scheduler) (moves : List Move)
    → Keyed moves
    → IsExclusive s
    → IsExclusive (run cron s moves)
unfolding run step
run-IsExclusive cron s [] k v = v
run-IsExclusive cron s (ticks joins now mono wall rows ∷ moves) k v =
    run-IsExclusive cron (tick cron joins now mono wall rows s).1 moves k.1
      (tick-IsExclusive cron joins now mono wall rows s k.0 v)
run-IsExclusive cron s (finishes cid ∷ moves) k v =
    run-IsExclusive cron (finish cid s) moves k (finish-IsExclusive cid s v)
