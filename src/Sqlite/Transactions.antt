-- ===== src/Sqlite/Transactions.antt =====
-- The transactions of the destination.
use holypipe.Models.{Value}
use holypipe.Connector.{delete_values, values_of, WriteMode, Row}
use holypipe.Sqlite.Statements.{
  delete, delete_sql, swap_stmts, swap_in, counted, insert_sql, executemany, after_stmt, commit,
  rollback, begin, caught, other_error, sqlite_error, Handle, Stmt, done, Answer, Respond, transact,
  try_all, write,
}
use holypipe.Prelude.{
  ℕ, ◌≡◌, ◌∙◌, refl, ap, inl, inr, ◌⊎◌, ◌≢◌, String, Bool, true, false, none, List, [], ◌∷◌, ◌++◌,
  map, length,
}

-- Nothing but sqlite3.Error is raised, and ROLLBACK is executed.
pub record Orderly (respond : Respond) : Type 0 where
  pub no_other : (s : Handle) (stmt : Stmt) → respond s stmt ≢ other_error
  pub rolls_back : (s : Handle) → respond s rollback ≡ done

Answer-cases : (a : Answer) → (a ≡ done) ⊎ ((a ≡ sqlite_error) ⊎ (a ≡ other_error))
Answer-cases done = inl refl
Answer-cases sqlite_error = inr (inl refl)
Answer-cases other_error = inr (inr refl)

module _ (respond : Respond) (stmt : Stmt) (stmts : List Stmt) (s : Handle) where
  try_all_onward :
      respond s stmt ≡ done
      → try_all respond (stmt ∷ stmts) s ≡ try_all respond stmts (after_stmt done stmt s)
  unfolding try_all
  try_all_onward h = rw (h, try_all) refl

  try_all_failed :
      respond s stmt ≡ sqlite_error → try_all respond (stmt ∷ stmts) s ≡ (s, sqlite_error)
  unfolding try_all
  try_all_failed h = rw (h, try_all) refl

  try_all_broken :
      respond s stmt ≡ other_error → try_all respond (stmt ∷ stmts) s ≡ (s, other_error)
  unfolding try_all
  try_all_broken h = rw (h, try_all) refl

try_all_end : (respond : Respond) (s : Handle) → try_all respond [] s ≡ (s, done)
unfolding try_all
try_all_end respond s = refl

caught_rolled :
    (respond : Respond) (s : Handle)
    → respond s rollback ≡ done
    → (caught respond (s, sqlite_error)).0.in_transaction ≡ false
caught_rolled respond s h = rw h refl

-- Statements of a `try` end it well, with COMMIT last, or in a sqlite3.Error.
try_all-caught :
    (respond : Respond) (stmts : List Stmt) (s : Handle)
    → Orderly respond
    → (caught respond (try_all respond (stmts ++ commit ∷ []) s)).0.in_transaction ≡ false
try_all-caught respond [] s o = elim (Answer-cases (respond s commit)) [
  | inl ok ↦
      ap (λ r. (caught respond r).0.in_transaction)
        (try_all_onward respond commit [] s ok ∙ try_all_end respond (after_stmt done commit s))
  | inr (inl failed) ↦
      rw (try_all_failed respond commit [] s failed) (caught_rolled respond s (o.rolls_back s))
  | inr (inr other) ↦ absurd (o.no_other s commit other)
]
try_all-caught respond (stmt ∷ stmts) s o = elim (Answer-cases (respond s stmt)) [
  | inl ok ↦
      rw (try_all_onward respond stmt (stmts ++ commit ∷ []) s ok)
        (try_all-caught respond stmts (after_stmt done stmt s) o)
  | inr (inl failed) ↦
      rw (try_all_failed respond stmt (stmts ++ commit ∷ []) s failed)
        (caught_rolled respond s (o.rolls_back s))
  | inr (inr other) ↦ absurd (o.no_other s stmt other)
]

transact-closed :
    (respond : Respond) (stmts : List Stmt) (s : Handle)
    → Orderly respond
    → s.in_transaction ≡ false
    → (transact respond stmts s).0.in_transaction ≡ false
unfolding transact
transact-closed respond stmts s o closed = elim (Answer-cases (respond s begin)) [
  | inl ok ↦ rw (ok, try_all) (try_all-caught respond stmts (after_stmt done begin s) o)
  | inr (inl failed) ↦ rw failed closed
  | inr (inr other) ↦ absurd (o.no_other s begin other)
]

counted-Handle : (n : ℕ) (r : Handle × Bool) → (counted n r).0 ≡ r.0
counted-Handle n (s, true) = refl
counted-Handle n (s, false) = refl

write-closed :
    (respond : Respond) (table : String) (columns : List String) (rows : List Row)
    (primary_key : List String) (mode : WriteMode) (s : Handle)
    → Orderly respond
    → s.in_transaction ≡ false
    → (write respond table columns rows primary_key mode s).0.in_transaction ≡ false
unfolding write
write-closed respond table columns [] primary_key mode s o closed = closed
write-closed respond table columns (row ∷ rows) primary_key mode s o closed =
    let stmts =
      executemany (insert_sql table columns primary_key mode) (map (values_of columns) (row ∷ rows))
      ∷ [] in
    rw (counted-Handle (length (row ∷ rows)) (transact respond stmts s))
      (transact-closed respond stmts s o closed)

delete-closed :
    (respond : Respond) (now : Value) (table : String) (pk : List String) (keys : List Row)
    (soft : Bool) (s : Handle)
    → Orderly respond
    → s.in_transaction ≡ false
    → (delete respond now table pk keys soft s).0.in_transaction ≡ false
unfolding delete
delete-closed respond now table [] [] soft s o closed = closed
delete-closed respond now table (p ∷ pk) [] soft s o closed = closed
delete-closed respond now table [] (key ∷ keys) soft s o closed = closed
delete-closed respond now table (p ∷ pk) (key ∷ keys) soft s o closed =
    let stmts =
      executemany (delete_sql table (p ∷ pk) soft)
        (map (delete_values now (p ∷ pk) soft) (key ∷ keys))
      ∷ [] in
    rw (counted-Handle (length (key ∷ keys)) (transact respond stmts s))
      (transact-closed respond stmts s o closed)

-- While a database raises nothing but sqlite3.Error and executes every ROLLBACK, a write, a delete
-- and a swap of tables that begin outside a transaction leave none open behind them, whether they
-- pass or raise.
pub write-delete-swap_in :
    (respond : Respond) (table shadow_table : String) (columns primary_key : List String)
    (rows keys : List Row) (mode : WriteMode) (soft existing : Bool) (now : Value) (s : Handle)
    → Orderly respond
    → s.in_transaction ≡ false
    → ((write respond table columns rows primary_key mode s).0.in_transaction ≡ false)
      × ((delete respond now table primary_key keys soft s).0.in_transaction ≡ false)
      × ((swap_in respond existing table shadow_table s).0.in_transaction ≡ false)
unfolding swap_in
write-delete-swap_in respond table shadow_table columns primary_key rows keys mode soft existing now
      s o closed =
    (
      write-closed respond table columns rows primary_key mode s o closed,
      delete-closed respond now table primary_key keys soft s o closed,
      transact-closed respond (swap_stmts existing table shadow_table) s o closed,
    )

transact_refused :
    (respond : Respond) (stmts : List Stmt) (s : Handle)
    → respond s begin ≡ sqlite_error
    → transact respond stmts s ≡ (s, false)
unfolding transact
transact_refused respond stmts s h = rw h refl

transact_broken :
    (respond : Respond) (stmt : Stmt) (s : Handle)
    → respond s begin ≡ done
    → respond (after_stmt done begin s) stmt ≡ other_error
    → transact respond (stmt ∷ []) s ≡ (after_stmt done begin s, false)
unfolding transact
transact_broken respond stmt s begun broken = rw begun (
    ap (caught respond)
      (try_all_broken respond stmt (commit ∷ []) (after_stmt done begin s) broken))

-- After an exception that is no sqlite3.Error, such as the OverflowError of an integer that SQLite
-- cannot hold, the transaction of a write stays open, and since SQLite refuses BEGIN within a
-- transaction, every later write of rows on the kept connection raises and changes nothing.
pub write_stuck :
    (respond : Respond) (table later : String) (columns names : List String) (row next : Row)
    (rows more : List Row) (primary_key pk : List String) (mode other : WriteMode) (s : Handle)
    → ((t : Handle) → t.in_transaction ≡ true → respond t begin ≡ sqlite_error)
    → respond s begin ≡ done
    → respond (after_stmt done begin s) (
        executemany
          (insert_sql table columns primary_key mode)
          (map (values_of columns) (row ∷ rows)))
      ≡ other_error
    → let (stuck, result) = write respond table columns (row ∷ rows) primary_key mode s in
      (result ≡ none)
      × (stuck.in_transaction ≡ true)
      × (write respond later names (next ∷ more) pk other stuck ≡ (stuck, none))
unfolding write
write_stuck respond table later columns names row next rows more primary_key pk mode other s nested
      begun overflow =
    let open_one = after_stmt done begin s in
    let stmt =
      executemany (insert_sql table columns primary_key mode)
        (map (values_of columns) (row ∷ rows)) in
    let again =
      executemany (insert_sql later names pk other) (map (values_of names) (next ∷ more)) ∷ [] in
    rw (transact_broken respond stmt s begun overflow)
      (refl, refl, rw (transact_refused respond again open_one (nested open_one refl)) refl)
