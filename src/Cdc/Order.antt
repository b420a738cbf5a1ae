-- ===== src/Cdc/Order.antt =====
-- How a batch is split by stream, and in which order its changes reach the destination.
use holypipe.Prelude.{
  ℕ, ◌≡◌, ◌∙◌, refl, sym, ap, String, true, false, Option, none, some, List, [], ◌∷◌, ◌++◌, arith,
  eq_iff, keep, str_eq, In, inl, inr, Bool-cases, Option-cases,
}
use mathlib.Core.Path.{subst}
use mathlib.Core.List.{append_assoc, append-nil}
use holypipe.Dict
use holypipe.Dict.{Dict, get-put}
use holypipe.Models.{StreamSchema}
use holypipe.Connector.{
  project, with_meta, all_columns, Row, ChangeEvent, write, delete, Respond, column_names, upsert,
}
use holypipe.Cdc.{
  Worker, is_delete, upserts, deletes, key_or_data, append_event, group, apply_stream,
  write_upserts, delete_rows,
}

-- The events of one stream, in their order.
abbrev pub events_of : String → List ChangeEvent → List ChangeEvent
events_of name = keep (λ ev. str_eq ev.stream name)

abbrev pub joined : Option (List ChangeEvent) → List ChangeEvent → Option (List ChangeEvent)
joined none [] = none
joined none (ev ∷ evs) = some (ev ∷ evs)
joined (some old) evs = some (old ++ evs)

joined-nil : (o : Option (List ChangeEvent)) → joined o [] ≡ o
joined-nil none = refl
joined-nil (some old) = ap some (append-nil old)

joined-append :
    (o : Option (List ChangeEvent)) (ev : ChangeEvent) (evs : List ChangeEvent)
    → joined (some (append_event o ev)) evs ≡ joined o (ev ∷ evs)
joined-append none ev evs = refl
joined-append (some old) ev evs = ap some (append_assoc old (ev ∷ []) evs)

-- Splitting a batch by stream loses no event, mixes no streams, and keeps the order of each.
get-group :
    (d : Dict (List ChangeEvent)) (events : List ChangeEvent) (name : String)
    → Dict.get name (group d events) ≡ joined (Dict.get name d) (events_of name events)
unfolding group
get-group d [] name = sym (joined-nil (Dict.get name d))
get-group d (ev ∷ events) name =
    let d' = Dict.put ev.stream (append_event (Dict.get ev.stream d) ev) d in
    elim (Bool-cases (str_eq ev.stream name)) [
      | inl same ↦
          get-group d' events name
          ∙ (rw (get-put, same)
              (joined-append (Dict.get ev.stream d) ev (events_of name events)
                ∙ ap (λ k. joined (Dict.get k d) (ev ∷ events_of name events))
                    ((eq_iff _ _).0 same)))
      | inr other ↦ get-group d' events name ∙ (rw (get-put, other))
    ]

-- The row that is written for an event.
abbrev pub row_of : ℕ → StreamSchema → ChangeEvent → Row
row_of now schema ev = with_meta now ev.op (project (column_names schema) ev.data_row)

-- Both kinds of change in one batch: the upserts are written first, whatever the order of events.
apply_stream_both :
    (respond : Respond) (now : ℕ) (table : String) (schema : StreamSchema) (evs : List ChangeEvent)
    (w : Worker) (p : String) (pk : List String) (row key : Row) (rows keys : List Row)
    → schema.primary_key ≡ p ∷ pk
    → upserts now schema evs ≡ row ∷ rows
    → deletes evs ≡ key ∷ keys
    → (apply_stream respond now table schema evs w).1 ≡ true
    → (apply_stream respond now table schema evs w).0.calls
      ≡ delete table none (p ∷ pk) (key ∷ keys) true
        ∷ write table none (all_columns schema) (row ∷ rows) (p ∷ pk) upsert
        ∷ w.calls
unfolding apply_stream write_upserts delete_rows
apply_stream_both respond now table schema evs w p pk row key rows keys k u d e =
    elim (Option-cases
      (respond (write table none (all_columns schema) (row ∷ rows) (p ∷ pk) upsert ∷ w.calls))) [
        | inl failed ↦ ground (arith, k, u, d)
        | inr (n, wrote) ↦ ground (arith, k, u, d)
      ]

In-deletes :
    (xs : List ChangeEvent) (ev : ChangeEvent) (ys : List ChangeEvent)
    → is_delete ev ≡ true
    → In (key_or_data ev.key ev.data_row) (deletes (xs ++ ev ∷ ys))
unfolding deletes
In-deletes [] ev ys e = rw (e, deletes) (inl refl)
In-deletes (x ∷ xs) ev ys e = elim (Bool-cases (is_delete x)) [
  | inl yes_x ↦ rw (yes_x, deletes) (inr (In-deletes xs ev ys e))
  | inr no_x ↦ rw (no_x, deletes) (In-deletes xs ev ys e)
]

In-upserts :
    (now : ℕ) (schema : StreamSchema) (xs : List ChangeEvent) (ev : ChangeEvent)
    (ys : List ChangeEvent)
    → is_delete ev ≡ false
    → In (row_of now schema ev) (upserts now schema (xs ++ ev ∷ ys))
unfolding upserts
In-upserts now schema [] ev ys e = rw (e, upserts) (inl refl)
In-upserts now schema (x ∷ xs) ev ys e = elim (Bool-cases (is_delete x)) [
  | inl yes_x ↦ rw (yes_x, upserts) (In-upserts now schema xs ev ys e)
  | inr no_x ↦ rw (no_x, upserts) (inr (In-upserts now schema xs ev ys e))
]

In-cases : {A : Type 0} (x : A) (xs : List A) → In x xs → (y : A) × (ys : List A) × (xs ≡ y ∷ ys)
In-cases x [] h = absurd h
In-cases x (y ∷ ys) h = (y, ys, refl)

-- If a batch deletes a row and inserts or updates one after that, then, where the table has a
-- primary key and both calls succeed, the destination is told of the deletion last: the calls
-- are one upsert with the row of the later event, and then one soft delete with the key of the
-- earlier one.
pub delete_wins :
    (respond : Respond) (now : ℕ) (table : String) (schema : StreamSchema) (w : Worker) (p : String)
    (pk : List String) (gone back : ChangeEvent) (xs ys zs : List ChangeEvent)
    → schema.primary_key ≡ p ∷ pk
    → is_delete gone ≡ true
    → is_delete back ≡ false
    → (apply_stream respond now table schema (xs ++ gone ∷ (ys ++ back ∷ zs)) w).1 ≡ true
    → (rows : List Row) × (keys : List Row) × ((apply_stream respond now table schema
          (xs ++ gone ∷ (ys ++ back ∷ zs))
          w).0.calls
        ≡ delete table none (p ∷ pk) keys true
          ∷ write table none (all_columns schema) rows (p ∷ pk) upsert
          ∷ w.calls)
      × In (row_of now schema back) rows
      × In (key_or_data gone.key gone.data_row) keys
delete_wins respond now table schema w p pk gone back xs ys zs k is_gone is_back passed =
    let evs = xs ++ gone ∷ (ys ++ back ∷ zs) in
    let in_keys = In-deletes xs gone (ys ++ back ∷ zs) is_gone in
    let in_rows =
      subst (λ l. In (row_of now schema back) (upserts now schema l))
        (append_assoc xs (gone ∷ ys) (back ∷ zs))
        (In-upserts now schema (xs ++ gone ∷ ys) back zs is_back) in
    let (row, rows, u) = In-cases _ (upserts now schema evs) in_rows in
    let (key, keys, d) = In-cases _ (deletes evs) in_keys in
    (
      row ∷ rows,
      key ∷ keys,
      apply_stream_both respond now table schema evs w p pk row key rows keys k u d passed,
      subst (In (row_of now schema back)) u in_rows,
      subst (In (key_or_data gone.key gone.data_row)) d in_keys,
    )
