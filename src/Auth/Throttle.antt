-- ===== src/Auth/Throttle.antt =====
-- LoginThrottle of auth.py against the history of failed logins.
use holypipe.Prelude.{
  ℕ, ◌-◌, ◌*◌, ◌≤◌, ◌≡◌, refl, ap, String, Bool, not, Option, none, some, List, [], ◌∷◌, ◌++◌,
  arith, eq_iff, keep, length, ltb, leb, str_eq, if◌then◌else◌,
}
use holypipe.Dict
use holypipe.Dict.{Dict, get-put, get-pop}
use holypipe.Models.{second}

-- MAX_ATTEMPTS and WINDOW
abbrev pub max_attempts : ℕ
max_attempts = 5

abbrev pub window : ℕ
window = 15 * 60 * second

-- `_failures`: the times of the failed logins of each name.
abbrev pub Failures : Type 0
Failures = Dict (List ℕ)

abbrev or_empty : Option (List ℕ) → List ℕ
or_empty none = []
or_empty (some times) = times

-- `[t for t in times if now - t < self.WINDOW]`
abbrev pub recent : ℕ → List ℕ → List ℕ
recent now = keep (λ t. ltb (now - t) window)

-- False is the HTTPException 429.
unfoldable pub check : String → ℕ → Failures → Bool × Failures
check username now f =
    let attempts = recent now (or_empty (Dict.get username f)) in
    (not (leb max_attempts (length attempts)), Dict.put username attempts f)

unfoldable pub record_failure : String → ℕ → Failures → Failures
record_failure username now f = Dict.put username (or_empty (Dict.get username f) ++ now ∷ []) f

unfoldable pub clear : String → Failures → Failures
clear username f = Dict.pop username f

pub data Call : Type 0 where
  checks failures clears : String → Call

unfoldable pub step : Failures → ℕ × Call → Failures
step f (now, checks name) = (check name now f).1
step f (now, failures name) = record_failure name now f
step f (now, clears name) = clear name f

unfoldable pub run : Failures → List (ℕ × Call) → Failures
run f [] = f
run f (call ∷ calls) = run (step f call) calls

-- The history of one name: its failures since its last success, oldest first.
unfoldable pub failed : String → List ℕ → List (ℕ × Call) → List ℕ
failed name times [] = times
failed name times ((now, checks other) ∷ calls) = failed name times calls
failed name times ((now, failures other) ∷ calls) =
    failed name (if str_eq other name then times ++ now ∷ [] else times) calls
failed name times ((now, clears other) ∷ calls) =
    failed name (if str_eq other name then [] else times) calls

-- The times of the calls do not fall, and end by `now`.
abbrev pub InOrder : ℕ → List (ℕ × Call) → ℕ → Type 0
InOrder t [] now = t ≤ now
InOrder t ((u, call) ∷ calls) now = (t ≤ u) × InOrder u calls now

-- What a check drops is in no later window.
recent-recent :
    (t now : ℕ) (times : List ℕ) → t ≤ now → recent now (recent t times) ≡ recent now times
recent-recent t now [] h = refl
recent-recent t now (x ∷ times) h = ground (arith, recent-recent t now times h)

recent-append : (now : ℕ) (xs ys : List ℕ) → recent now (xs ++ ys) ≡ recent now xs ++ recent now ys
recent-append now [] ys = refl
recent-append now (x ∷ xs) ys = ground (arith, recent-append now xs ys)

-- From time `t` on the stored times and the history have the same recent part.
record Agree (t : ℕ) (name : String) (f : Failures) (times : List ℕ) : Type 0 where
  at : (now : ℕ) → t ≤ now → recent now (or_empty (Dict.get name f)) ≡ recent now times

Agree-run :
    (t now : ℕ) (name : String) (calls : List (ℕ × Call)) (f : Failures) (times : List ℕ)
    → InOrder t calls now
    → Agree t name f times
    → recent now (or_empty (Dict.get name (run f calls))) ≡ recent now (failed name times calls)
unfolding run failed
Agree-run t now name [] f times h a = a.at now h
Agree-run t now name ((u, checks other) ∷ calls) f times h a =
    Agree-run u now name calls (step f (u, checks other)) times h.1 (record {
      at = λ v le.
          unfold step check in
          rw get-put (
            ground
              (arith, eq_iff other name, recent-recent u v (or_empty (Dict.get other f)), a.at v));
    })
Agree-run t now name ((u, failures other) ∷ calls) f times h a =
    Agree-run u now name calls (step f (u, failures other)) _ h.1 (record {
      at = λ v le.
          unfold step record_failure in
          rw get-put (
            ground (
              arith,
              eq_iff other name,
              recent-append v (or_empty (Dict.get other f)) (u ∷ []),
              recent-append v times (u ∷ []),
              a.at v,
            ));
    })
Agree-run t now name ((u, clears other) ∷ calls) f times h a =
    Agree-run u now name calls (step f (u, clears other)) _ h.1 (record {
      at = λ v le. unfold step clear in rw get-pop (ground (arith, eq_iff other name, a.at v));
    })

-- After any checks, failures and successes at times in order, a check refuses a name exactly when
-- at least five of its failures since its last success lie in the last fifteen minutes.
pub check-run :
    (t now : ℕ) (calls : List (ℕ × Call)) (name : String)
    → InOrder t calls now
    → (check name now (run [] calls)).0
      ≡ not (leb max_attempts (length (recent now (failed name [] calls))))
unfolding check
check-run t now calls name h =
    ap (λ times. not (leb max_attempts (length times)))
      (Agree-run t now name calls [] [] h (record { at = λ v le. refl }))
