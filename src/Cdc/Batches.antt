-- ===== src/Cdc/Batches.antt =====
-- The stored position never passes a batch that was not applied.
use holypipe.Cdc.Taken.{on_batch-Passes, taken_batches}
use holypipe.Prelude.{
  ◌⊎◌, ℕ, ◌≡◌, ◌∙◌, refl, sym, ap, String, Bool, false, not, ◌&&◌, Option, none, some, List, [],
  ◌∷◌, ◌++◌, if◌then◌else◌, inl, inr, Bool-cases, ltb, length, ◌-◌, ◌*◌,
}
use mathlib.Core.Path.{subst}
use holypipe.Models.{second}
use mathlib.Core.List.{append_assoc, append-nil}
use holypipe.Dict
use holypipe.Dict.{Dict}
use holypipe.Models.{StreamSchema, State}
use holypipe.Connector.{Row, ChangeEvent, Respond}
use holypipe.Cdc.{
  Worker, Streams, Batch, upserts, deletes, write_upserts, delete_rows, delete_by, after_write,
  after_delete, apply_stream, apply_known, apply_groups, apply_batch, persist_state, move_position,
  update_all, group, on_batch, on_batches,
}

-- The state once the positions of some batches have been taken over.
unfoldable pub advance : List Batch → State → State
advance [] st = st
advance (batch ∷ batches) st =
    advance batches (record st { position = update_all batch.position st.position })

advance-append :
    (xs ys : List Batch) (st : State) → advance (xs ++ ys) st ≡ advance ys (advance xs st)
unfolding advance
advance-append [] ys st = refl
advance-append (x ∷ xs) ys st = advance-append xs ys _

-- Writing and deleting leave both copies of the state alone.
record SameState (w w' : Worker) : Type 0 where
  state : w'.state ≡ w.state
  stored : w'.stored ≡ w.stored

write_upserts_state :
    (respond : Respond) (table : String) (schema : StreamSchema) (rows : List Row) (w : Worker)
    → SameState w (write_upserts respond table schema rows w).1
unfolding write_upserts
write_upserts_state respond table schema [] w = record { state = refl; stored = refl }
write_upserts_state respond table schema (row ∷ rows) w = record { state = refl; stored = refl }

delete_by_state :
    (respond : Respond) (table : String) (pk : List String) (keys : List Row) (w : Worker)
    → SameState w (delete_by respond table pk keys w).1
delete_by_state respond table [] keys w = record { state = refl; stored = refl }
delete_by_state respond table (p ∷ pk) [] w = record { state = refl; stored = refl }
delete_by_state respond table (p ∷ pk) (key ∷ keys) w = record { state = refl; stored = refl }

after_delete_state :
    (read written : ℕ) (r : Option ℕ × Worker) → SameState r.1 (after_delete read written r).0
after_delete_state read written (none, w) = record { state = refl; stored = refl }
after_delete_state read written (some n, w) = record { state = refl; stored = refl }

SameState-trans : {u v w : Worker} → SameState u v → SameState v w → SameState u w
SameState-trans p q = record { state = q.state ∙ p.state; stored = q.stored ∙ p.stored }

after_write_state :
    (respond : Respond) (table : String) (schema : StreamSchema) (evs : List ChangeEvent)
    (r : Option ℕ × Worker)
    → SameState r.1 (after_write respond table schema evs r).0
unfolding delete_rows
after_write_state respond table schema evs (none, w) = record { state = refl; stored = refl }
after_write_state respond table schema evs (some n, w) =
    SameState-trans (delete_by_state respond table schema.primary_key (deletes evs) w)
      (after_delete_state (length evs) n (delete_rows respond table schema (deletes evs) w))

apply_known_state :
    (respond : Respond) (now : ℕ) (known : Option (StreamSchema × String)) (evs : List ChangeEvent)
    (w : Worker)
    → SameState w (apply_known respond now known evs w).0
unfolding apply_stream
apply_known_state respond now none evs w = record { state = refl; stored = refl }
apply_known_state respond now (some (schema, table)) evs w =
    SameState-trans (write_upserts_state respond table schema (upserts now schema evs) w) (
      after_write_state respond table schema evs
        (write_upserts respond table schema (upserts now schema evs) w))

apply_groups_state :
    (respond : Respond) (now : ℕ) (streams : Streams) (groups : Dict (List ChangeEvent))
    (w : Worker)
    → SameState w (apply_groups respond now streams groups w).0
unfolding apply_groups
apply_groups_state respond now streams [] w = record { state = refl; stored = refl }
apply_groups_state respond now streams ((name, evs) ∷ groups) w =
    let known = Dict.get name streams in
    let w' = (apply_known respond now known evs w).0 in
    let one = apply_known_state respond now known evs w in
    let rest = SameState-trans one (apply_groups_state respond now streams groups w') in
    elim (Bool-cases (apply_known respond now known evs w).1) [
      | inl passed ↦ rw passed rest
      | inr raised ↦ rw raised one
    ]

-- What is stored is the state after some of the batches done, none left out before them, and the
-- worker's own state is that after all of them.
pub record IsBehind (st : State) (done : List Batch) (w : Worker) : Type 0 where
  pub past : List Batch
  pub ahead : List Batch
  pub splits : past ++ ahead ≡ done
  pub saved : w.stored ≡ some (advance past st)
  pub held : w.state ≡ advance done st

persist-IsBehind :
    (st : State) (done : List Batch) (force : Bool) (now : ℕ) (w : Worker)
    → IsBehind st done w
    → IsBehind st done (persist_state force now w)
unfolding persist_state
persist-IsBehind st done force now w b =
    elim (Bool-cases (not force && ltb (now - w.last_persist) (2 * second))) [
      | inl skip ↦ rw (skip, persist_state) b
      | inr save ↦
          rw (save, persist_state)
            (record {
              past = done;
              ahead = [];
              splits = append-nil done;
              saved = rw b.saved (ap some b.held);
              held = b.held;
            })
    ]

move-IsBehind :
    (st : State) (done : List Batch) (batch : Batch) (w : Worker)
    → IsBehind st done w
    → IsBehind st (done ++ batch ∷ []) (move_position batch.position w)
unfolding move_position
move-IsBehind st done batch w b = record {
  past = b.past;
  ahead = b.ahead ++ batch ∷ [];
  splits = sym (append_assoc b.past b.ahead (batch ∷ [])) ∙ ap (λ l. l ++ batch ∷ []) b.splits;
  saved = b.saved;
  held =
      ap (λ (s : State). record s { position = update_all batch.position s.position }) b.held
      ∙ (unfold advance in sym (advance-append done (batch ∷ []) st));
}

SameState-IsBehind :
    (st : State) (done : List Batch) (w w' : Worker)
    → SameState w w'
    → IsBehind st done w
    → IsBehind st done w'
SameState-IsBehind st done w w' same b = record {
  past = b.past;
  ahead = b.ahead;
  splits = b.splits;
  saved = same.stored ∙ b.saved;
  held = same.state ∙ b.held;
}

on_batch-IsBehind :
    (respond : Respond) (streams : Streams) (st : State) (done : List Batch) (batch : Batch)
    (w : Worker)
    → IsBehind st done w
    → IsBehind st
        (if (on_batch respond streams batch w).1 then done ++ batch ∷ [] else done)
        (on_batch respond streams batch w).0
unfolding on_batch apply_batch
on_batch-IsBehind respond streams st done batch w b =
    let groups = group [] batch.events in
    let w' = (apply_groups respond batch.at streams groups w).0 in
    let b' =
      SameState-IsBehind st done w w' (apply_groups_state respond batch.at streams groups w) b in
    elim (Bool-cases (apply_groups respond batch.at streams groups w).1) [
      | inl passed ↦ rw passed (
          persist-IsBehind st (done ++ batch ∷ []) false batch.at (move_position batch.position w')
            (move-IsBehind st done batch w' b'))
      | inr raised ↦ rw raised b'
    ]

-- Whatever the destination answers, and whenever the rate limit lets the state be stored: the
-- stored position is that of a prefix of `done` and of the batches taken since. A batch counts as
-- taken if the destination answered, without raising, every call that it needs: per prepared stream
-- a write of all rows inserted or updated and, given a primary key, a deletion by all keys deleted;
-- and if so did all batches before it. Either a batch raised, or all of them were taken.
pub on_batches-IsBehind :
    (respond : Respond) (streams : Streams) (st : State) (done batches : List Batch) (w : Worker)
    → IsBehind st done w
    → IsBehind st
        (done ++ taken_batches respond streams batches w.calls)
        (on_batches respond streams batches w).0
      × (((on_batches respond streams batches w).1 ≡ false)
          ⊎ (taken_batches respond streams batches w.calls ≡ batches))
unfolding on_batches taken_batches
on_batches-IsBehind respond streams st done [] w b =
    (subst (λ l. IsBehind st l w) (sym (append-nil done)) b, inr refl)
on_batches-IsBehind respond streams st done (batch ∷ batches) w b =
    let w' = (on_batch respond streams batch w).0 in
    let b' = on_batch-IsBehind respond streams st done batch w b in
    let p = on_batch-Passes respond streams batch w in
    elim (Bool-cases (on_batch respond streams batch w).1) [
      | inl passed ↦
          let (rest, complete) =
            on_batches-IsBehind respond streams st (done ++ batch ∷ []) batches w'
              (rw passed at b') in
          rw (passed, sym p.flag ∙ passed, ← p.made passed)
            (
              subst (λ l. IsBehind st l (on_batches respond streams batches w').0)
                  (append_assoc done (batch ∷ []) (taken_batches respond streams batches w'.calls))
                  rest,
              elim complete [ inl r ↦ inl r | inr e ↦ inr (ap (◌∷◌ batch) e) ],
            )
      | inr raised ↦
          rw (raised, sym p.flag ∙ raised)
            (subst (λ l. IsBehind st l w') (sym (append-nil done)) (rw raised at b'), inl refl)
    ]
