-- ===== src/Sqlite/Tests.antt =====
-- The theorem on the journal at a concrete input.
use holypipe.Prelude.{
  ◌≡◌, refl, inl, inr, ◌≢◌, String, true, false, none, List, [], ◌∷◌, ◌++◌, arith, Bool-cases,
  if◌then◌else◌,
}
use holypipe.Connector.{upsert}
use holypipe.Models.{null, text}
use holypipe.Sqlite.Statements.{
  begin, commit, rollback, execute, executemany, done, sqlite_error, other_error, Respond, Handle,
  Stmt, write, delete, swap_in,
}
use holypipe.Sqlite.Transactions.{write_stuck, write-delete-swap_in}
use holypipe.Sqlite.Types.{canonical}
use holypipe.Connector.{Row}
use holypipe.Models.{text, StreamSchema}
use holypipe.Sqlite.Journal.{Event, Poller, run}
use holypipe.Sqlite.Ids.{IsLog, Ascends}
use holypipe.Sqlite.Delivery.{run-delivered, logged, pending, delivered}
use holypipe.Sqlite.Journal.{polls, fires}

abbrev notes : StreamSchema
notes = record {
  name = "notes";
  table = "notes";
  namespace = none;
  columns =
      record { name = "id"; type = "integer"; nullable = false; native_type = "INTEGER" } ∷ [];
  primary_key = "id" ∷ [];
}

-- The row with the text as its one column.
abbrev one_column : String → Row
one_column s = ("id", text s) ∷ []

abbrev reopened : Poller
reopened = record {
  journal = record { id = 4; table_name = "notes"; op = "insert"; row_json = "4" } ∷ [];
  next_id = 5;
  last_id = 3;
  stored_id = none;
  handed = [];
}

abbrev note_events : List Event
note_events =
    fires "notes" "update" "5"
    ∷ polls
    ∷ fires "other" "insert" "6"
    ∷ fires "notes" "delete" "7"
    ∷ polls
    ∷ []

reopened-IsLog : IsLog reopened
unfolding Ascends
reopened-IsLog = record { ordered = (omega arith, omega arith); before = omega arith }

run-delivered_example :
    let r = run one_column (notes ∷ []) (λ hs. true) 2 note_events reopened in
    (r.1 ≡ true)
    × (delivered r.0.handed ++ pending one_column (notes ∷ []) r.0
        ≡ (delivered reopened.handed ++ pending one_column (notes ∷ []) reopened)
          ++ logged one_column (notes ∷ []) note_events)
run-delivered_example =
    run-delivered one_column (notes ∷ []) (λ hs. true) 2 note_events reopened (λ hs. refl)
      reopened-IsLog

canonical-point : canonical "point" ≡ "integer"
unfolding canonical
canonical-point = refl

-- A database that refuses BEGIN within a transaction, and rows.
abbrev strict : Respond
strict s begin = if s.in_transaction then sqlite_error else done
strict s (executemany sql values) = sqlite_error
strict s (execute sql) = done
strict s commit = done
strict s rollback = done

-- The same, but with an integer that is too large.
abbrev overflowing : Respond
overflowing s begin = if s.in_transaction then sqlite_error else done
overflowing s (executemany sql values) = other_error
overflowing s (execute sql) = done
overflowing s commit = done
overflowing s rollback = done

abbrev idle_session : Handle
idle_session = record { executed = []; in_transaction = false }

strict-no_other : (s : Handle) (stmt : Stmt) → strict s stmt ≢ other_error
strict-no_other s begin = elim (Bool-cases s.in_transaction) [
  | inl e ↦ rw e (λ h. cc)
  | inr e ↦ rw e (λ h. cc)
]
strict-no_other s (executemany sql values) = λ h. cc
strict-no_other s (execute sql) = λ h. cc
strict-no_other s commit = λ h. cc
strict-no_other s rollback = λ h. cc

write-delete-swap_in_example :
    ((write strict "notes"
        ("id" ∷ [])
        (one_column "7" ∷ [])
        ("id" ∷ [])
        upsert
        idle_session).0.in_transaction
      ≡ false)
    × ((delete strict null "notes"
          ("id" ∷ [])
          (one_column "7" ∷ [])
          true
          idle_session).0.in_transaction
        ≡ false)
    × ((swap_in strict true "notes" "notes__hpswap" idle_session).0.in_transaction ≡ false)
write-delete-swap_in_example =
    write-delete-swap_in strict "notes" "notes__hpswap" ("id" ∷ []) ("id" ∷ [])
      (one_column "7" ∷ []) (one_column "7" ∷ []) upsert true true null idle_session
      (record { no_other = strict-no_other; rolls_back = λ s. refl }) refl

write_stuck_example :
    let (stuck, result) =
      write overflowing "notes" ("id" ∷ []) (one_column "7" ∷ []) ("id" ∷ []) upsert idle_session in
    (result ≡ none)
    × (stuck.in_transaction ≡ true)
    × (write overflowing "notes" ("id" ∷ []) (one_column "8" ∷ []) ("id" ∷ []) upsert stuck
        ≡ (stuck, none))
write_stuck_example =
    write_stuck overflowing "notes" "notes" ("id" ∷ []) ("id" ∷ []) (one_column "7")
      (one_column "8") [] [] ("id" ∷ []) ("id" ∷ []) upsert upsert idle_session (λ t e. rw e refl)
      refl refl
