-- ===== src/Supervisor/Workers.antt =====
-- The threads that stream a connection. A stop takes the worker out of the registry under the lock,
-- and joins its thread outside it, so that other calls come between.
use holypipe.Prelude.{
  Option-cases, ◌≢◌, refl, inr, ◌∙◌, ap, inl, Bool-cases, Option, none, ℕ, suc, ◌<◌, ◌≡◌, String,
  false, some, List, [], ◌∷◌, arith, eq_iff, ◌==◌, if◌then◌else◌, str_eq,
}
use holypipe.Dict
use holypipe.Dict.{Dict, get-put, get-pop}
use holypipe.Supervisor.{
  alive_worker, init, is_running, Supervisor, is_alive, start, without, exit, stop,
}
use holypipe.Supervisor.Registry.{
  count, Registered, IsValid, is_alive-without, start-IsValid, stop-IsValid, exit-IsValid,
  count-Registered,
}

pub data Move : Type 0 where
  starts : String → Move
  pops : String → Move
  exits : ℕ → Move

-- The supervisor, and the threads that were told to stop, whether they still run or not.
pub record Threads : Type 0 where
  pub supervisor : Supervisor
  pub told : List ℕ

abbrev pub begin : Threads
begin = record { supervisor = init; told = [] }

abbrev pub and_told : Option ℕ → List ℕ → List ℕ
and_told none told = told
and_told (some t) told = t ∷ told

-- A stop is a `pops` and, if its join succeeds, an `exits` of the thread at some later point.
unfoldable pub step : Threads → Move → Threads
unfolding start stop exit
step s (starts cid) = record s { supervisor = start cid s.supervisor }
step s (pops cid) = record {
  supervisor = stop cid false s.supervisor;
  told = and_told (Dict.get cid s.supervisor.workers) s.told;
}
step s (exits t) = record s { supervisor = exit t s.supervisor }

unfoldable pub run : Threads → List Move → Threads
unfolding step
run s [] = s
run s (m ∷ moves) = run (step s m) moves

-- Without the threads that were told to stop.
unfoldable pub left : List ℕ → List (ℕ × String) → List (ℕ × String)
left [] live = live
left (t ∷ told) live = without t (left told live)

-- The registry, with the threads that were not told to stop.
abbrev view : Threads → Supervisor
view s = record s.supervisor { live = left s.told s.supervisor.live }

-- No registered thread was told to stop, and the numbers of those that were are not given again.
IsTold : Dict ℕ → ℕ → List ℕ → Type 0
IsTold workers fresh [] = Unit
IsTold workers fresh (t ∷ told) =
    (t < fresh) × ((cid : String) → Dict.get cid workers ≢ some t) × IsTold workers fresh told

record IsRun (s : Threads) : Type 0 where
  valid : IsValid (view s)
  apart : IsTold s.supervisor.workers s.supervisor.fresh s.told

without-without :
    (t u : ℕ) (live : List (ℕ × String)) → without t (without u live) ≡ without u (without t live)
without-without t u [] = refl
without-without t u ((w, cid) ∷ live) = ground (arith, without-without t u live)

left-without :
    (told : List ℕ) (t : ℕ) (live : List (ℕ × String))
    → left told (without t live) ≡ without t (left told live)
unfolding left
left-without [] t live = refl
left-without (u ∷ told) t live =
    ap (without u) (left-without told t live) ∙ without-without u t (left told live)

-- A new thread was not told to stop.
left_fresh :
    (workers : Dict ℕ) (fresh : ℕ) (told : List ℕ) (cid : String) (live : List (ℕ × String))
    → IsTold workers fresh told
    → left told ((fresh, cid) ∷ live) ≡ (fresh, cid) ∷ left told live
unfolding left IsTold
left_fresh workers fresh [] cid live a = refl
left_fresh workers fresh (t ∷ told) cid live a =
    let other : (fresh == t) ≡ false = ground (arith, a.0) in
    ap (without t) (left_fresh workers fresh told cid live a.2) ∙ rw other refl

-- A registered thread is among those that go on just if it runs.
is_alive-left :
    (workers : Dict ℕ) (fresh : ℕ) (told : List ℕ) (cid : String) (t : ℕ) (live : List (ℕ × String))
    → Dict.get cid workers ≡ some t
    → IsTold workers fresh told
    → is_alive t (left told live) ≡ is_alive t live
unfolding left IsTold
is_alive-left workers fresh [] cid t live e a = refl
is_alive-left workers fresh (u ∷ told) cid t live e a =
    let rest = is_alive-left workers fresh told cid t live e a.2 in
    elim (Bool-cases (u == t)) [
      | inl same ↦
          let clash : Dict.get cid workers ≡ some u = ground (arith, e) in absurd (a.1 cid clash)
      | inr other ↦ is_alive-without u t (left told live) ∙ rw (other, rest) refl
    ]

alive_worker-left :
    (workers : Dict ℕ) (fresh : ℕ) (told : List ℕ) (cid : String) (o : Option ℕ)
    (live : List (ℕ × String))
    → Dict.get cid workers ≡ o
    → IsTold workers fresh told
    → alive_worker o (left told live) ≡ alive_worker o live
alive_worker-left workers fresh told cid none live e a = refl
alive_worker-left workers fresh told cid (some t) live e a =
    is_alive-left workers fresh told cid t live e a

IsTold-put :
    (workers : Dict ℕ) (fresh : ℕ) (cid : String) (told : List ℕ)
    → IsTold workers fresh told
    → IsTold (Dict.put cid fresh workers) (suc fresh) told
unfolding IsTold
IsTold-put workers fresh cid [] a = tt
IsTold-put workers fresh cid (t ∷ told) a = (
  omega (arith, a.0),
  λ c e. elim (Bool-cases (str_eq cid c)) [
    | inl same ↦ ground (arith, get-put cid c fresh workers, a.0)
    | inr other ↦ a.1 c (ground (arith, get-put cid c fresh workers))
  ],
  IsTold-put workers fresh cid told a.2,
)

IsTold-pop :
    (workers : Dict ℕ) (fresh : ℕ) (cid : String) (told : List ℕ)
    → IsTold workers fresh told
    → IsTold (Dict.pop cid workers) fresh told
unfolding IsTold
IsTold-pop workers fresh cid [] a = tt
IsTold-pop workers fresh cid (t ∷ told) a = (
  a.0,
  λ c e. a.1 c (ground (arith, get-pop cid c workers)),
  IsTold-pop workers fresh cid told a.2,
)

starts-IsRun : (s : Threads) (cid : String) → IsRun s → IsRun (step s (starts cid))
unfolding step start
starts-IsRun s cid r =
    let sup = s.supervisor in
    let same =
      alive_worker-left sup.workers sup.fresh s.told cid (Dict.get cid sup.workers) sup.live refl
        r.apart in
    elim (Bool-cases (alive_worker (Dict.get cid sup.workers) sup.live)) [
      | inl on ↦ rw (on, start) r
      | inr off ↦
          let started = start-IsValid (view s) cid r.valid in
          rw (off, start)
            (record {
              valid =
                  rw (left_fresh sup.workers sup.fresh s.told cid sup.live r.apart)
                    (rw (same ∙ off, start) at started);
              apart = IsTold-put sup.workers sup.fresh cid s.told r.apart;
            })
    ]

pops-IsRun : (s : Threads) (cid : String) → IsRun s → IsRun (step s (pops cid))
unfolding step stop left IsTold
pops-IsRun s cid r =
    let sup = s.supervisor in
    let stopped = stop-IsValid (view s) cid r.valid in
    elim (Option-cases (Dict.get cid sup.workers)) [
      | inl absent ↦
          rw (absent, stop)
            (record {
              valid = rw (absent, stop) at stopped;
              apart = IsTold-pop sup.workers sup.fresh cid s.told r.apart;
            })
      | inr (t, there) ↦
          rw (there, stop)
            (record {
              valid = rw (there, stop) at stopped;
              apart = (
                r.valid.registry.below cid t there,
                λ c e. elim (Bool-cases (str_eq cid c)) [
                  | inl same ↦ ground (arith, get-pop cid c sup.workers)
                  | inr other ↦
                      let own : Dict.get c sup.workers ≡ some t =
                        ground (arith, get-pop cid c sup.workers) in
                      ground (arith, r.valid.registry.injective cid c t there own, eq_iff cid c)
                ],
                IsTold-pop sup.workers sup.fresh cid s.told r.apart,
              );
            })
    ]

exits-IsRun : (s : Threads) (t : ℕ) → IsRun s → IsRun (step s (exits t))
unfolding step exit
exits-IsRun s t r = record {
  valid = rw (left-without s.told t s.supervisor.live) (exit-IsValid (view s) t r.valid);
  apart = r.apart;
}

step-IsRun : (s : Threads) (m : Move) → IsRun s → IsRun (step s m)
step-IsRun s (starts cid) r = starts-IsRun s cid r
step-IsRun s (pops cid) r = pops-IsRun s cid r
step-IsRun s (exits t) r = exits-IsRun s t r

run-IsRun : (s : Threads) (moves : List Move) → IsRun s → IsRun (run s moves)
unfolding run
run-IsRun s [] r = r
run-IsRun s (m ∷ moves) r = run-IsRun (step s m) moves (step-IsRun s m r)

begin-IsRun : IsRun begin
unfolding Registered left IsTold
begin-IsRun = record {
  valid = record {
    registered = tt;
    registry = record { below = λ cid t e. cc; injective = λ c d t e f. cc };
  };
  apart = tt;
}

-- Starts, stops and exits in whatever order, where a stop takes the worker out of the registry and
-- its thread exits later, if at all, and other calls come between. Of the live threads that were
-- not told to stop, exactly one streams a connection that `is_running` reports, and none streams
-- any other.
pub count-run :
    (moves : List Move) (cid : String)
    → let s = run begin moves in
      count cid (left s.told s.supervisor.live) ≡ (if is_running cid s.supervisor then 1 else 0)
unfolding is_running
count-run moves cid =
    let s = run begin moves in
    let r = run-IsRun begin moves begin-IsRun in
    let sup = s.supervisor in
    count-Registered _ _ cid _ _ r.valid.registry refl r.valid.registered
    ∙ rw (alive_worker-left sup.workers sup.fresh s.told cid _ sup.live refl r.apart) refl
