-- ===== src/Connector/Grouping.antt =====
-- The streams that are discovered.
use mathlib.Core.List.{append_assoc, append-nil}
use holypipe.Connector.Tables.{Group, append_to, About, grouped, items_at}
use holypipe.Prelude.{
  ◌≡◌, ◌∙◌, refl, sym, inl, inr, String, Bool, ◌&&◌, List, [], ◌∷◌, ◌++◌, map, arith, keep, str_eq,
  eq_iff, Bool-cases, if◌then◌else◌,
}

module _ {ℓ} {A : Type ℓ} where
  abbrev pub is_about : String → String → About A → Bool
  is_about schema table row = str_eq row.schema schema && str_eq row.table table

  -- The items of the rows about a table, in the order of the rows.
  abbrev pub items_about : String → String → List (About A) → List A
  items_about schema table rows =
      map (λ (row : About A). row.item) (keep (is_about schema table) rows)

  items_at-append_to :
      (schema table at_schema at_table : String) (item : A) (groups : List (Group A))
      → items_at schema table (append_to at_schema at_table item groups) ≡ (
          if str_eq at_schema schema && str_eq at_table table
          then items_at schema table groups ++ item ∷ []
          else items_at schema table groups)
  unfolding items_at append_to
  items_at-append_to schema table at_schema at_table item [] = ground arith
  items_at-append_to schema table at_schema at_table item (g ∷ groups) = ground (
    arith,
    eq_iff g.schema at_schema,
    eq_iff g.table at_table,
    eq_iff g.schema schema,
    eq_iff g.table table,
    eq_iff at_schema schema,
    eq_iff at_table table,
    items_at-append_to schema table at_schema at_table item groups,
  )

  pub items_at-grouped :
      (schema table : String) (rows : List (About A)) (groups : List (Group A))
      → items_at schema table (grouped rows groups)
        ≡ items_at schema table groups ++ items_about schema table rows
  unfolding grouped
  items_at-grouped schema table [] groups = sym (append-nil (items_at schema table groups))
  items_at-grouped schema table (row ∷ rows) groups =
      let more = append_to row.schema row.table row.item groups in
      elim (Bool-cases (is_about schema table row)) [
        | inl about ↦ rw about (
            items_at-grouped schema table rows more
            ∙ rw (items_at-append_to schema table row.schema row.table row.item groups, about)
                (append_assoc (items_at schema table groups) (row.item ∷ [])
                  (items_about schema table rows)))
        | inr other ↦ rw other (
            items_at-grouped schema table rows more
            ∙ rw (items_at-append_to schema table row.schema row.table row.item groups, other) refl)
      ]
