-- ===== src/Logs.antt =====
-- logging_util.py, over the table of log entries, and the handler `get_logs` of api/routes.py that
-- reads it. The rows stand by falling id, as the queries order them; the standard output is left
-- out.
pub mod Pruning
mod Tests
use holypipe.Connector.{take_chars}
use Prim.Native.String.{◌++◌ as text_append}
use holypipe.Prelude.{
  ℕ, zero, suc, ◌+◌, ◌-◌, ◌*◌, ◌/◌, ◌%◌, ◌^◌, ◌≤◌, ◌<◌, ◌≡◌, ◌∙◌, refl, sym, ap, inl, inr, ◌⊎◌, ◌≢◌,
  String, Bool, true, false, not, ◌&&◌, ◌||◌, Option, none, some, List, [], ◌∷◌, ◌++◌, map, arith,
  ltb, leb, ◌==◌, keep, any, all, contains, length, str_eq, eq_iff, Bool-cases, Option-cases, Each,
  In, if◌then◌else◌,
}
use mathlib.Core.List.{reverse}
use holypipe.Prelude.{take, drop, min}
use holypipe.Dict.{Dict}

-- LogEntry of models.py
pub record LogEntry : Type 0 where
  pub id : ℕ
  pub connection_id : Option String
  pub run_id : Option String
  pub level : String
  pub message : String

-- What is published is newest first too.
pub record Logs : Type 0 where
  pub rows : List LogEntry
  pub next_id : ℕ
  pub published : List (String × String)

abbrev pub entry : ℕ → Option String → Option String → String → String → LogEntry
entry id connection_id run_id level message = record {
  id = id;
  connection_id = connection_id;
  run_id = run_id;
  level = level;
  message = take_chars 8000 message;
}

-- `log`; `saved` says whether the transaction passes, whose exceptions are swallowed.
unfoldable pub log : Bool → Bool → Option String → Option String → String → String → Logs → Logs
unfolding take_chars
log persist saved connection_id run_id level message s =
    let told = record s { published = (level, message) ∷ s.published } in
    if not persist
    then told
    else if saved
    then record told {
      rows = entry s.next_id connection_id run_id level message ∷ s.rows;
      next_id = suc s.next_id;
    }
    else told

abbrev pub has_id : List ℕ → ℕ → Bool
has_id ids id = any (λ j. j == id) ids

-- `keep or settings.log_retention`
abbrev pub kept : ℕ → Option ℕ → ℕ
kept log_retention none = log_retention
kept log_retention (some zero) = log_retention
kept log_retention (some (suc n)) = suc n

abbrev pub row_ids : List LogEntry → List ℕ
row_ids rows = map (λ (row : LogEntry). row.id) rows

abbrev pub doomed : ℕ → List LogEntry → List ℕ
doomed n rows = take 5000 (drop n (row_ids rows))

-- `if ids:`, the deletion of the rows with these ids.
abbrev pub without_ids : List ℕ → List LogEntry → List LogEntry
without_ids [] rows = rows
without_ids (i ∷ ids) rows = keep (λ (row : LogEntry). not (has_id (i ∷ ids) row.id)) rows

-- `prune_logs`; an exception of its transaction is swallowed.
unfoldable pub prune_logs : ℕ → Option ℕ → Bool → Logs → Logs
prune_logs log_retention n saved s =
    if saved
    then record s { rows = without_ids (doomed (kept log_retention n) s.rows) s.rows }
    else s

abbrev of_connection : Option String → List LogEntry → List LogEntry
of_connection none rows = rows
of_connection (some id) rows =
    if str_eq id ""
    then rows
    else keep (λ (row : LogEntry). elim row.connection_id [ none ↦ false | some c ↦ str_eq c id ])
        rows

-- `get_logs`, of a limit that is not negative.
unfoldable pub get_logs : Option String → ℕ → Logs → List LogEntry
get_logs connection_id limit s =
    reverse (take (min limit 1000) (of_connection connection_id s.rows))
