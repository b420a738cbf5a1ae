-- ===== src/Logs/Pruning.antt =====
-- What pruning leaves.
use holypipe.Logs.{
  kept, doomed, get_logs, prune_logs, Logs, log, without_ids, has_id, row_ids, LogEntry,
}
use holypipe.Prelude.{
  ℕ, zero, suc, ◌≤◌, ◌<◌, ◌≡◌, ◌∙◌, refl, sym, ap, inl, inr, String, Bool, true, false, not, Option,
  none, List, [], ◌∷◌, ◌++◌, arith, keep, Bool-cases,
}
use mathlib.Core.List.{reverse}
use holypipe.Prelude.{take, drop, min}

-- The ids fall, from below a bound.
pub IsFalling : ℕ → List LogEntry → Type 0
IsFalling bound [] = Unit
IsFalling bound (row ∷ rows) = (row.id < bound) × IsFalling row.id rows

falling-drop :
    (n m id bound : ℕ) (rows : List LogEntry)
    → IsFalling bound rows
    → bound ≤ id
    → has_id (take m (drop n (row_ids rows))) id ≡ false
unfolding IsFalling
falling-drop n zero id bound rows falling above = refl
falling-drop zero (suc m) id bound [] falling above = refl
falling-drop (suc n) (suc m) id bound [] falling above = refl
falling-drop zero (suc m) id bound (row ∷ rows) (below, falling) above =
    ground (arith, falling-drop zero m id row.id rows falling)
falling-drop (suc n) (suc m) id bound (row ∷ rows) (below, falling) above =
    falling-drop n (suc m) id row.id rows falling (omega arith)

abbrev spared : List ℕ → List LogEntry → List LogEntry
spared ids rows = keep (λ (row : LogEntry). not (has_id ids row.id)) rows

-- A further id does not matter to rows below it.
spared-cons :
    (id bound : ℕ) (ids : List ℕ) (rows : List LogEntry)
    → IsFalling bound rows
    → bound ≤ id
    → spared (id ∷ ids) rows ≡ spared ids rows
unfolding IsFalling
spared-cons id bound ids [] falling above = refl
spared-cons id bound ids (row ∷ rows) (below, falling) above =
    ground (arith, spared-cons id row.id ids rows falling)

spared_none : (rows : List LogEntry) → spared [] rows ≡ rows
spared_none [] = refl
spared_none (row ∷ rows) = ap (λ t. row ∷ t) (spared_none rows)

spared-take :
    (n m bound : ℕ) (rows : List LogEntry)
    → IsFalling bound rows
    → spared (take m (drop n (row_ids rows))) rows ≡ take n rows ++ drop m (drop n rows)
unfolding IsFalling
spared-take zero zero bound rows falling = spared_none rows
spared-take zero (suc m) bound [] falling = refl
spared-take zero (suc m) bound (row ∷ rows) (below, falling) = ground (
  arith,
  spared-cons row.id row.id (take m (row_ids rows)) rows falling,
  spared-take zero m row.id rows falling,
)
spared-take (suc n) zero bound [] falling = refl
spared-take (suc n) (suc m) bound [] falling = refl
spared-take (suc n) m bound (row ∷ rows) (below, falling) =
    rw (falling-drop n m row.id row.id rows falling (omega arith))
      (ap (λ t. row ∷ t) (spared-take n m row.id rows falling))

without_ids-spared : (ids : List ℕ) (rows : List LogEntry) → without_ids ids rows ≡ spared ids rows
without_ids-spared [] rows = sym (spared_none rows)
without_ids-spared (i ∷ ids) rows = refl

drop-nil : (m : ℕ) → drop {A = LogEntry} m [] ≡ []
drop-nil zero = refl
drop-nil (suc m) = refl

take-append-drop :
    (l n m : ℕ) (xs : List LogEntry) → l ≤ n → take l (take n xs ++ drop m (drop n xs)) ≡ take l xs
take-append-drop zero n m xs h = refl
take-append-drop (suc l) zero m xs h = absurd (omega arith)
take-append-drop (suc l) (suc n) m [] h = rw (drop-nil m) refl
take-append-drop (suc l) (suc n) m (x ∷ xs) h =
    ap (λ t. x ∷ t) (take-append-drop l n m xs (omega arith))

IsFalling-up :
    (low bound : ℕ) (rows : List LogEntry) → low ≤ bound → IsFalling low rows → IsFalling bound rows
unfolding IsFalling
IsFalling-up low bound [] above falling = tt
IsFalling-up low bound (row ∷ rows) above (below, falling) = (omega arith, falling)

keep-IsFalling :
    (p : LogEntry → Bool) (bound : ℕ) (rows : List LogEntry)
    → IsFalling bound rows
    → IsFalling bound (keep p rows)
unfolding IsFalling
keep-IsFalling p bound [] falling = tt
keep-IsFalling p bound (row ∷ rows) (below, falling) =
    let rest = keep-IsFalling p row.id rows falling in
    elim (Bool-cases (p row)) [
      | inl stays ↦ rw stays (below, rest)
      | inr goes ↦ rw goes (IsFalling-up row.id bound (keep p rows) (omega arith) rest)
    ]

without_ids-IsFalling :
    (ids : List ℕ) (bound : ℕ) (rows : List LogEntry)
    → IsFalling bound rows
    → IsFalling bound (without_ids ids rows)
without_ids-IsFalling [] bound rows falling = falling
without_ids-IsFalling (i ∷ ids) bound rows falling =
    keep-IsFalling (λ (row : LogEntry). not (has_id (i ∷ ids) row.id)) bound rows falling

-- What calls of `log` and `prune_logs` make of no entries.
pub data Reached (log_retention : ℕ) : Logs → Type 0 where
  begins : Reached log_retention (record { rows = []; next_id = 1; published = [] })
  logs :
      {s : Logs} (persist saved : Bool) (connection_id run_id : Option String)
      (level message : String)
      → Reached log_retention s
      → Reached log_retention (log persist saved connection_id run_id level message s)
  prunes :
      {s : Logs} (n : Option ℕ) (saved : Bool)
      → Reached log_retention s
      → Reached log_retention (prune_logs log_retention n saved s)

abbrev Ordered : Logs → Type 0
Ordered s = IsFalling s.next_id s.rows

log-Ordered :
    (persist saved : Bool) (connection_id run_id : Option String) (level message : String)
    (s : Logs)
    → Ordered s
    → Ordered (log persist saved connection_id run_id level message s)
unfolding IsFalling log
log-Ordered false saved connection_id run_id level message s h = h
log-Ordered true false connection_id run_id level message s h = h
log-Ordered true true connection_id run_id level message s h = (omega arith, h)

prune_logs-Ordered :
    (log_retention : ℕ) (n : Option ℕ) (saved : Bool) (s : Logs)
    → Ordered s
    → Ordered (prune_logs log_retention n saved s)
unfolding prune_logs
prune_logs-Ordered log_retention n false s h = h
prune_logs-Ordered log_retention n true s h =
    without_ids-IsFalling (doomed (kept log_retention n) s.rows) s.next_id s.rows h

Reached-Ordered : (log_retention : ℕ) (s : Logs) → Reached log_retention s → Ordered s
unfolding IsFalling
Reached-Ordered r s begins = tt
Reached-Ordered r s (logs {s = before} persist saved connection_id run_id level message reached) =
    log-Ordered persist saved connection_id run_id level message before
      (Reached-Ordered r before reached)
Reached-Ordered r s (prunes {s = before} n saved reached) =
    prune_logs-Ordered r n saved before (Reached-Ordered r before reached)

-- After any calls of `log` and `prune_logs`, a pruning that passes leaves the newest entries, as
-- many as it keeps, and the entries behind the 5000 that follow them; and `get_logs` without a
-- connection returns the same before and behind it, if its limit is at most that number.
pub prune_logs-get_logs :
    (log_retention : ℕ) (n : Option ℕ) (limit : ℕ) (s : Logs)
    → Reached log_retention s
    → min limit 1000 ≤ kept log_retention n
    → let pruned = prune_logs log_retention n true s in
      let newest = kept log_retention n in
      (pruned.rows ≡ take newest s.rows ++ drop 5000 (drop newest s.rows))
      × (get_logs none limit pruned ≡ get_logs none limit s)
unfolding prune_logs get_logs
prune_logs-get_logs log_retention n limit s reached fits =
    let newest = kept log_retention n in
    let left =
      without_ids-spared (doomed newest s.rows) s.rows
      ∙ spared-take newest 5000 s.next_id s.rows (Reached-Ordered log_retention s reached) in
    (
      left,
      ap (λ rows. reverse (take (min limit 1000) rows)) left
          ∙ ap reverse (take-append-drop (min limit 1000) newest 5000 s.rows fits),
    )
