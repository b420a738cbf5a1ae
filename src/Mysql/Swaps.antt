-- ===== src/Mysql/Swaps.antt =====
-- Swaps of shadow tables, of which each statement is committed on its own.
use holypipe.Mysql.Changes.{drop_old, query_table, rename_both, swap_in, old_name}
use holypipe.Mysql.Statements.{Respond, Stmt}
use holypipe.Prelude.{◌≡◌, ◌∙◌, refl, ap, String, Bool, true, false, not, List, [], ◌∷◌, all}

-- Whether there is a table of a name in the database.
abbrev pub Names : Type 0
Names = String → Bool

-- The names once these statements, newest first, have taken effect.
unfoldable pub after : (Stmt → Names → Names) → List Stmt → Names → Names
after effect [] names = names
after effect (stmt ∷ passed) names = effect stmt (after effect passed names)

-- What MySQL documents of the statements of a swap: the two renames put the table under its old
-- name, a query leaves all names, and a RENAME to a name that is taken is refused.
pub record IsServer (respond : Respond) (effect : Stmt → Names → Names) (start : Names)
    (db table : String) : Type 0 where
  pub renames :
      (shadow : String) (names : Names)
      → effect (rename_both db table shadow) names (old_name table) ≡ names table
  pub asks : (names : Names) → effect (query_table db table) names ≡ names
  pub answers : (passed : List Stmt) → respond passed (query_table db table) ≡ true
  pub refuses :
      (shadow : String) (passed : List Stmt)
      → after effect passed start (old_name table) ≡ true
      → respond passed (rename_both db table shadow) ≡ false

-- Later swaps of the table, each with a shadow table, and which of them passed.
unfoldable pub swap_again :
    Respond → String → String → List String → List Stmt → List Stmt × List Bool
swap_again respond db table [] passed = (passed, [])
swap_again respond db table (shadow ∷ shadows) passed =
    let (passed', swapped) = swap_in respond true db table shadow passed in
    let (passed'', others) = swap_again respond db table shadows passed' in
    (passed'', swapped ∷ others)

swap_in-taken :
    (respond : Respond) (effect : Stmt → Names → Names) (start : Names) (db table shadow : String)
    (passed : List Stmt)
    → IsServer respond effect start db table
    → after effect passed start (old_name table) ≡ true
    → swap_in respond true db table shadow passed ≡ (query_table db table ∷ passed, false)
unfolding swap_in after
swap_in-taken respond effect start db table shadow passed server taken =
    let asked : after effect (query_table db table ∷ passed) start (old_name table) ≡ true =
      ap (λ (names : Names). names (old_name table)) (server.asks (after effect passed start))
      ∙ taken in
    rw (server.answers passed, server.refuses shadow (query_table db table ∷ passed) asked) refl

swap_again-taken :
    (respond : Respond) (effect : Stmt → Names → Names) (start : Names) (db table : String)
    (shadows : List String) (passed : List Stmt)
    → IsServer respond effect start db table
    → after effect passed start (old_name table) ≡ true
    → (all not (swap_again respond db table shadows passed).1 ≡ true)
      × (after effect (swap_again respond db table shadows passed).0 start
          ≡ after effect passed start)
unfolding swap_again after
swap_again-taken respond effect start db table [] passed server taken = (refl, refl)
swap_again-taken respond effect start db table (shadow ∷ shadows) passed server taken =
    let asks = server.asks (after effect passed start) in
    let (none_passed, same) =
      swap_again-taken respond effect start db table shadows (query_table db table ∷ passed) server
        (ap (λ (names : Names). names (old_name table)) asks ∙ taken) in
    rw (swap_in-taken respond effect start db table shadow passed server taken)
      (none_passed, same ∙ asks)

-- A swap of a table that is there raises if its RENAME passes and its DROP does not. From then on
-- every later swap of this table raises as well, however many are tried and with which shadow
-- tables, and none changes which tables there are: the old table stays under the name that the
-- RENAME needs.
pub swap_in_stuck :
    (respond : Respond) (effect : Stmt → Names → Names) (start : Names)
    (db table shadow_table : String) (shadows : List String) (passed : List Stmt)
    → IsServer respond effect start db table
    → after effect passed start table ≡ true
    → respond (query_table db table ∷ passed) (rename_both db table shadow_table) ≡ true
    → respond
        (rename_both db table shadow_table ∷ query_table db table ∷ passed)
        (drop_old db table)
      ≡ false
    → let (stuck, swapped) = swap_in respond true db table shadow_table passed in
      (swapped ≡ false)
      × (all not (swap_again respond db table shadows stuck).1 ≡ true)
      × (after effect (swap_again respond db table shadows stuck).0 start
          ≡ after effect stuck start)
      × (after effect stuck start (old_name table) ≡ true)
unfolding swap_in after
swap_in_stuck respond effect start db table shadow_table shadows passed server there renamed
      dropped =
    let stuck = rename_both db table shadow_table ∷ query_table db table ∷ passed in
    let taken : after effect stuck start (old_name table) ≡ true =
      server.renames shadow_table (after effect (query_table db table ∷ passed) start)
      ∙ ap (λ (names : Names). names table) (server.asks (after effect passed start))
      ∙ there in
    let (none_passed, same) =
      swap_again-taken respond effect start db table shadows stuck server taken in
    rw (server.answers passed, renamed, dropped) (refl, none_passed, same, taken)
