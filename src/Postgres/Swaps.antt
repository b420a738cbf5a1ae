-- ===== src/Postgres/Swaps.antt =====
-- What a reader finds under the names of the tables once a shadow table was swapped in.
use mathlib.Core.Path.{subst}
use mathlib.Core.List.{reverse}
use holypipe.Postgres.Atomic.{transact-IsAtomic}
use holypipe.Postgres.Removals.{swap_in, swap_stmts, rename, query_table, old_name, drop_table}
use holypipe.Postgres.Statements.{Stmt, Handle, Respond}
use holypipe.Prelude.{
  ◌≡◌, refl, sym, ap, inl, inr, ◌⊎◌, String, Bool, true, false, Option, none, List, [], ◌∷◌, ◌++◌,
  str_eq, str_eq_refl, if◌then◌else◌,
}

-- What the tables of a schema contain, by their names.
abbrev pub Tables : Type 0 → Type 0
Tables C = String → Option C

-- The tables once these statements, newest first, were committed.
unfoldable pub shown : {C : Type 0} → (Stmt → Tables C → Tables C) → List Stmt → Tables C → Tables C
shown effect [] tables = tables
shown effect (stmt ∷ committed) tables = effect stmt (shown effect committed tables)

abbrev pub renamed : {C : Type 0} → String → String → Tables C → Tables C
renamed from to tables name =
    if str_eq name to then tables from else if str_eq name from then none else tables name

abbrev pub removed : {C : Type 0} → String → Tables C → Tables C
removed gone tables name = if str_eq name gone then none else tables name

-- What PostgreSQL documents of the statements of a swap.
pub record IsServer {C : Type 0} (effect : Stmt → Tables C → Tables C) (schema : String)
    : Type 0 where
  pub renames :
      (from to : String) (tables : Tables C)
      → effect (rename schema from to) tables ≡ renamed from to tables
  pub drops :
      (gone : String) (tables : Tables C)
      → effect (drop_table schema gone) tables ≡ removed gone tables
  pub asks :
      (table : String) (tables : Tables C) → effect (query_table schema table) tables ≡ tables

-- The three names of a swap are different.
pub record AreApart (table shadow_table : String) : Type 0 where
  pub shadow_old : str_eq shadow_table (old_name table) ≡ false
  pub shadow_own : str_eq shadow_table table ≡ false
  pub own_old : str_eq table (old_name table) ≡ false

-- The table has the contents of the shadow table; there is no shadow table, and no table that was
-- put aside.
abbrev pub IsSwapped : {C : Type 0} → Bool → String → String → Tables C → Tables C → Type 0
IsSwapped exists table shadow_table before tables =
    (tables table ≡ before shadow_table)
    × (tables shadow_table ≡ none)
    × ((if exists then tables (old_name table) else none) ≡ none)

shown-swap_stmts :
    {C : Type 0} (effect : Stmt → Tables C → Tables C) (schema table shadow_table : String)
    (exists : Bool) (committed : List Stmt) (start : Tables C)
    → IsServer effect schema
    → AreApart table shadow_table
    → IsSwapped exists table shadow_table
        (shown effect committed start)
        (shown effect (reverse (swap_stmts exists schema table shadow_table) ++ committed) start)
unfolding shown swap_stmts
shown-swap_stmts effect schema table shadow_table true committed start server apart =
    rw
      (
        server.drops (old_name table) _,
        server.renames shadow_table table _,
        server.renames table (old_name table) _,
        server.asks table _,
        apart.own_old,
        apart.shadow_old,
        apart.shadow_own,
        str_eq_refl table,
        str_eq_refl shadow_table,
        str_eq_refl (old_name table),
      )
      (refl, refl, refl)
shown-swap_stmts effect schema table shadow_table false committed start server apart =
    rw
      (
        server.renames shadow_table table _,
        server.asks table _,
        apart.shadow_own,
        str_eq_refl table,
        str_eq_refl shadow_table,
      )
      (refl, refl, refl)

-- A swap on a connection with no open transaction, where the names of the table, of its shadow and
-- of the table put aside differ. If it passes, a reader finds under the table's name what the shadow
-- table contained, no shadow table, and no table put aside. If it raises, a reader finds every table
-- as it was, or all of that, as where the commit took effect and only its answer was lost. No
-- transaction is left open.
pub swap_in-IsSwapped :
    {C : Type 0} (effect : Stmt → Tables C → Tables C) (start : Tables C) (respond : Respond)
    (exists : Bool) (schema table shadow_table : String) (s : Handle)
    → IsServer effect schema
    → AreApart table shadow_table
    → s.pending ≡ []
    → let (t, passed) = swap_in respond exists schema table shadow_table s in
      let before = shown effect s.committed start in
      let now = shown effect t.committed start in
      (t.pending ≡ [])
      × (((passed ≡ false) × (now ≡ before)) ⊎ IsSwapped exists table shadow_table before now)
unfolding swap_in
swap_in-IsSwapped effect start respond exists schema table shadow_table s server apart clear =
    let stmts = swap_stmts exists schema table shadow_table in
    let (closed, ends) = transact-IsAtomic respond stmts s clear in
    (
      closed,
      elim ends [
        | inl (raised, same) ↦ inl (raised, ap (λ c. shown effect c start) same)
        | inr all_of ↦ inr (
            subst
              (λ c.
                IsSwapped exists table shadow_table (shown effect s.committed start)
                  (shown effect c start))
              (sym all_of)
              (shown-swap_stmts effect schema table shadow_table exists s.committed start server
                apart))
      ],
    )
