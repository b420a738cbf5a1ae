-- ===== src/Sync/Cursors.antt =====
-- The cursor that an incremental stream saves.
use mathlib.Core.Path.{subst}
use holypipe.Prelude.{
  ◌+◌, then_passed, length, map, ℕ, In-left, In-right, Each-append, ◌≡◌, ◌≢◌, ◌∙◌, refl, sym, ap,
  String, Bool, true, false, ◌⊎◌, inl, inr, Option, some, List, [], ◌∷◌, ◌++◌, arith, Bool-cases,
  Option-cases, In, Each,
}
use holypipe.Models.{Value}
use holypipe.Connector.{write_mode, all_columns, with_meta, write, Row}
use holypipe.Sync.{
  seen_batch, truthy, load_batch, load_batches, write_batch, write_table, Job, Progress, Env,
  is_null, newer, field_value, seen,
}

-- What Python promises of `>` between values that compare.
pub record IsStrict (greater : Value → Value → Option Bool) : Type 0 where
  pub irreflexive : (a : Value) → greater a a ≢ some true
  pub transitive :
      (a b c : Value) → greater a b ≡ some true → greater b c ≡ some true → greater a c ≡ some true

-- What `newer` does with a value: it is kept back, or taken over.
data Step (greater : Value → Value → Option Bool) (v m m' : Value) : Type 0 where
  skipped : is_null v ≡ true → m' ≡ m → Step greater v m m'
  first : is_null v ≡ false → is_null m ≡ true → m' ≡ v → Step greater v m m'
  above : is_null v ≡ false → greater v m ≡ some true → m' ≡ v → Step greater v m m'
  below : is_null m ≡ false → greater v m ≡ some false → m' ≡ m → Step greater v m m'

newer-Step :
    (greater : Value → Value → Option Bool) (v m m' : Value)
    → newer greater v m ≡ some m'
    → Step greater v m m'
newer-Step greater v m m' e = elim (Bool-cases (is_null v)) [
  | inl null_v ↦ skipped null_v (ground arith)
  | inr some_v ↦ elim (Bool-cases (is_null m)) [
    | inl null_m ↦ first some_v null_m (ground arith)
    | inr some_m ↦ elim (Option-cases (greater v m)) [
      | inl raised ↦ absurd (ground arith)
      | inr (b, compares) ↦ elim (Bool-cases b) [
        | inl up ↦ above some_v (compares ∙ ap some up) (ground arith)
        | inr down ↦ below some_m (compares ∙ ap some down) (ground arith)
      ]
    ]
  ]
]

module _ (greater : Value → Value → Option Bool) where
  -- A cursor that a value does not exceed; only null stands below a null cursor.
  abbrev pub Covers : Value → Value → Type 0
  Covers cursor v = (is_null v ≡ true) ⊎ ((is_null cursor ≡ false) × (greater v cursor ≢ some true))

  -- From the cursor `m`, the rows lead to the cursor `m'`.
  pub record Sees (field : String) (rows : List Row) (m m' : Value) : Type 0 where
    pub covers : Each (λ row. Covers m' (field_value field row)) rows
    pub rises : (v : Value) → Covers m v → Covers m' v
    pub reached :
        (m' ≡ m) ⊎ (row : Row) × In row rows × (field_value field row ≡ m') × (is_null m' ≡ false)

  module _ (strict : IsStrict greater) where
    abbrev Moves : Value → Value → Value → Type 0
    Moves v m m' =
        Covers m' v
        × ((u : Value) → Covers m u → Covers m' u)
        × ((m' ≡ m) ⊎ ((v ≡ m') × (is_null m' ≡ false)))

    newer-Moves : (v m m' : Value) → newer greater v m ≡ some m' → Moves v m m'
    newer-Moves v m m' e = elim (newer-Step greater v m m' e) [
      | skipped null_v same ↦ subst (Moves v m) (sym same) (inl null_v, λ u c. c, inl refl)
      | first some_v null_m same ↦ subst (Moves v m) (sym same) (
        inr (some_v, strict.irreflexive v),
        λ u c. elim c [ inl n ↦ inl n | inr (some_m, not_above) ↦ absurd (ground arith) ],
        inr (refl, some_v),
      )
      | above some_v up same ↦ subst (Moves v m) (sym same) (
        inr (some_v, strict.irreflexive v),
        λ u c. elim c [
          | inl n ↦ inl n
          | inr (some_m, not_above) ↦ inr (some_v, λ g. not_above (strict.transitive u v m g up))
        ],
        inr (refl, some_v),
      )
      | below some_m down same ↦
          subst (Moves v m) (sym same) (inr (some_m, λ g. cc), λ u c. c, inl refl)
    ]

    Sees-none : (field : String) (m : Value) → Sees field [] m m
    Sees-none field m = record { covers = tt; rises = λ v c. c; reached = inl refl }

    Each-rises :
        (field : String) (rows : List Row) (m m' : Value)
        → ((u : Value) → Covers m u → Covers m' u)
        → Each (λ row. Covers m (field_value field row)) rows
        → Each (λ row. Covers m' (field_value field row)) rows
    Each-rises field [] m m' rises each = tt
    Each-rises field (row ∷ rows) m m' rises (c, each) =
        (rises _ c, Each-rises field rows m m' rises each)

    Sees-append :
        (field : String) (rows rows' : List Row) (a b c : Value)
        → Sees field rows a b
        → Sees field rows' b c
        → Sees field (rows ++ rows') a c
    Sees-append field rows rows' a b c one two = record {
      covers = Each-append _ rows rows' (Each-rises field rows b c two.rises one.covers) two.covers;
      rises = λ v covered. two.rises v (one.rises v covered);
      reached = elim two.reached [
        | inl same ↦ elim one.reached [
          | inl old ↦ inl (same ∙ old)
          | inr (row, here, value, some_b) ↦
              inr (row, In-left row rows rows' here, value ∙ sym same, rw same some_b)
        ]
        | inr (row, there, value, some_c) ↦ inr (row, In-right row rows rows' there, value, some_c)
      ];
    }

    seen-Sees :
        (field : String) (rows : List Row) (m m' : Value)
        → seen greater field rows m ≡ some m'
        → Sees field rows m m'
    unfolding seen
    seen-Sees field [] m m' e = subst (Sees field [] m) (ground arith) (Sees-none field m)
    seen-Sees field (row ∷ rows) m m' e =
        elim (Option-cases (newer greater (field_value field row) m)) [
          | inl raised ↦ absurd (ground arith)
          | inr (n, moves) ↦
              let (covered, rises, reached) = newer-Moves (field_value field row) m n moves in
              let one : Sees field (row ∷ []) m n = record {
                covers = (covered, tt);
                rises = rises;
                reached = elim reached [
                  | inl same ↦ inl same
                  | inr (value, some_n) ↦ inr (row, inl refl, value, some_n)
                ];
              } in
              Sees-append field (row ∷ []) rows m n m' one
                (seen-Sees field rows n m' (rw (moves, seen) at e))
        ]

-- The rows of the batches as they are written.
unfoldable pub marked : ℕ → List (List Row) → List Row
marked now [] = []
marked now (batch ∷ batches) = map (with_meta now "read") batch ++ marked now batches

pub record Loaded (env : Env) (field : String) (rows : List Row) (p p' : Progress) : Type 0 where
  pub state : p'.state ≡ p.state
  pub sees : Sees env.greater field rows p.max_seen p'.max_seen

write_batch-kept :
    (env : Env) (namespace : Option String) (job : Job) (rows : List Row) (p : Progress)
    → ((write_batch env namespace job rows p).0.state ≡ p.state)
      × ((write_batch env namespace job rows p).0.max_seen ≡ p.max_seen)
unfolding write_batch
write_batch-kept env namespace job rows p =
    let pk = job.schema.primary_key in
    let c = write (write_table job) namespace (all_columns job.schema) rows pk (write_mode pk) in
    elim (Option-cases (env.respond (c ∷ p.calls))) [
      | inl raised ↦ (rw (raised, write_batch) refl, rw (raised, write_batch) refl)
      | inr (n, answered) ↦ (rw (answered, write_batch) refl, rw (answered, write_batch) refl)
    ]

module _ (env : Env) (strict : IsStrict env.greater) (namespace : Option String) (job : Job)
    (field : String) (compares : truthy job.cursor_field ≡ some field) (now : ℕ) where
  seen_batch_lem :
      (rows : List Row) (m : Value) → seen_batch env job rows m ≡ seen env.greater field rows m
  unfolding seen_batch
  seen_batch_lem rows m = rw (compares, seen_batch) refl

  load_batch-Loaded :
      (batch : List Row) (p : Progress)
      → (load_batch env namespace job now batch p).1 ≡ true
      → Loaded env field
          (map (with_meta now "read") batch)
          p
          (load_batch env namespace job now batch p).0
  unfolding load_batch
  load_batch-Loaded batch p e =
      let rows = map (with_meta now "read") batch in
      let p' = record p { read_count = p.read_count + length batch } in
      elim (Option-cases (seen_batch env job rows p.max_seen)) [
        | inl raised ↦ absurd (ground (arith, rw (raised, load_batch) at e))
        | inr (m, sees) ↦
            let (state, max_seen) =
              write_batch-kept env namespace job rows (record p' { max_seen = m }) in
            rw (sees, load_batch)
              (record {
                state = state;
                sees = subst (Sees env.greater field rows p.max_seen) (sym max_seen) (
                    seen-Sees env.greater strict field rows p.max_seen m
                      (sym (seen_batch_lem rows p.max_seen) ∙ sees));
              })
      ]

  pub load_batches-Loaded :
      (batches : List (List Row)) (ended : Bool) (p : Progress)
      → (load_batches env namespace job now batches ended p).1 ≡ true
      → Loaded env field
          (marked now batches)
          p
          (load_batches env namespace job now batches ended p).0
  unfolding load_batches marked
  load_batches-Loaded [] ended p e = record {
    state = refl;
    sees = Sees-none env.greater strict field p.max_seen;
  }
  load_batches-Loaded (batch ∷ batches) ended p e =
      let k = load_batches env namespace job now batches ended in
      let (passed, onward) = then_passed (load_batch env namespace job now batch p) k e in
      let p' = (load_batch env namespace job now batch p).0 in
      let one = load_batch-Loaded batch p passed in
      let two = load_batches-Loaded batches ended p' (rw onward at e) in
      rw onward (record {
        state = two.state ∙ one.state;
        sees = Sees-append env.greater strict field _ _ _ _ _ one.sees two.sees;
      })
