-- ===== src/Cdc/Taken.antt =====
-- Which batches a destination took, told by the calls that they need and by its answers.
use holypipe.Prelude.{
  arith, keep, Option-cases, true, map, ℕ, ◌≡◌, ◌∙◌, refl, sym, ap, String, Bool, false, not, ◌&&◌,
  Option, none, some, List, [], ◌∷◌, ◌++◌, if◌then◌else◌, inl, inr, Bool-cases, length,
}
use holypipe.Dict
use holypipe.Dict.{Dict}
use holypipe.Models.{StreamSchema}
use mathlib.Core.Path.{subst}
use holypipe.Cdc.Groups.{by_stream, group-by_stream}
use holypipe.Connector.{
  column_names, write_mode, all_columns, project, with_meta, Row, ChangeEvent, Respond,
}
use holypipe.Cdc.{
  delete, key_or_data, true, write, Call, is_delete, map, Worker, Streams, Batch, upserts, deletes,
  write_upserts, delete_rows, delete_by, after_write, after_delete, apply_stream, apply_known,
  apply_groups, apply_batch, persist_state, move_position, group, on_batch,
}

-- The rows and keys that a stream's events ask to be written and deleted.
abbrev asked_rows : ℕ → StreamSchema → List ChangeEvent → List Row
asked_rows now schema evs =
    map (λ ev. with_meta now ev.op (project (column_names schema) ev.data_row))
      (keep (λ ev. not (is_delete ev)) evs)

abbrev asked_keys : List ChangeEvent → List Row
asked_keys evs = map (λ ev. key_or_data ev.key ev.data_row) (keep is_delete evs)

-- The calls that these rows and keys need: none for no rows, or without a key to delete by.
abbrev write_call : String → StreamSchema → List Row → List Call
write_call table schema [] = []
write_call table schema (row ∷ rows) =
    write table none (all_columns schema) (row ∷ rows) schema.primary_key
      (write_mode schema.primary_key)
    ∷ []

abbrev delete_call : String → List String → List Row → List Call
delete_call table [] keys = []
delete_call table (p ∷ pk) [] = []
delete_call table (p ∷ pk) (key ∷ keys) = delete table none (p ∷ pk) (key ∷ keys) true ∷ []

abbrev stream_calls : ℕ → Option (StreamSchema × String) → List ChangeEvent → List Call
stream_calls now none evs = []
stream_calls now (some (schema, table)) evs =
    write_call table schema (asked_rows now schema evs)
    ++ delete_call table schema.primary_key (asked_keys evs)

unfoldable pub batch_calls : ℕ → Streams → Dict (List ChangeEvent) → List Call
batch_calls now streams [] = []
batch_calls now streams ((name, evs) ∷ groups) =
    stream_calls now (Dict.get name streams) evs ++ batch_calls now streams groups

abbrev answer_then : Option ℕ → Bool → Bool
answer_then none rest = false
answer_then (some n) rest = rest

-- Whether a destination that has had some calls answers each of these, in their order.
unfoldable pub answered : Respond → List Call → List Call → Bool
answered respond [] calls = true
answered respond (c ∷ cs) calls =
    let rest = answered respond cs (c ∷ calls) in answer_then (respond (c ∷ calls)) rest

-- The calls so far, newest first, once these were made.
unfoldable pub made_after : List Call → List Call → List Call
made_after [] calls = calls
made_after (c ∷ cs) calls = made_after cs (c ∷ calls)

-- The batches before the first one of which the destination refuses a call. They are told by the
-- calls and the answers alone.
unfoldable pub taken_batches : Respond → Streams → List Batch → List Call → List Batch
taken_batches respond streams [] calls = []
taken_batches respond streams (batch ∷ batches) calls =
    let asks = batch_calls batch.at streams (by_stream batch.events) in
    let rest = taken_batches respond streams batches (made_after asks calls) in
    if answered respond asks calls then batch ∷ rest else []

answered-append :
    (respond : Respond) (xs ys calls : List Call)
    → answered respond (xs ++ ys) calls
      ≡ (answered respond xs calls && answered respond ys (made_after xs calls))
unfolding answered made_after
answered-append respond [] ys calls = refl
answered-append respond (x ∷ xs) ys calls = elim (Option-cases (respond (x ∷ calls))) [
  | inl refused ↦ rw (refused, answered) refl
  | inr (n, e) ↦ rw (e, answered) (answered-append respond xs ys (x ∷ calls))
]

made_after-append :
    (xs ys calls : List Call) → made_after (xs ++ ys) calls ≡ made_after ys (made_after xs calls)
unfolding made_after
made_after-append [] ys calls = refl
made_after-append (x ∷ xs) ys calls = made_after-append xs ys (x ∷ calls)

upserts-asked_rows :
    (now : ℕ) (schema : StreamSchema) (evs : List ChangeEvent)
    → upserts now schema evs ≡ asked_rows now schema evs
unfolding upserts
upserts-asked_rows now schema [] = refl
upserts-asked_rows now schema (ev ∷ evs) =
    let rest = upserts-asked_rows now schema evs in
    elim (Bool-cases (is_delete ev)) [ inl del ↦ rw del rest | inr up ↦ rw (up, rest) refl ]

deletes-asked_keys : (evs : List ChangeEvent) → deletes evs ≡ asked_keys evs
unfolding deletes
deletes-asked_keys [] = refl
deletes-asked_keys (ev ∷ evs) =
    let rest = deletes-asked_keys evs in
    elim (Bool-cases (is_delete ev)) [ inl del ↦ rw (del, rest) refl | inr up ↦ rw up rest ]

abbrev is_answer : Option ℕ → Bool
is_answer none = false
is_answer (some n) = true

-- One call at most was made, and the result is its answer.
record Tried (respond : Respond) (asks : List Call) (w : Worker) (r : Option ℕ × Worker)
    : Type 0 where
  flag : is_answer r.0 ≡ answered respond asks w.calls
  made : r.1.calls ≡ made_after asks w.calls

-- A step reports that it passed just when the calls were answered, and then all were made.
pub record Passes (respond : Respond) (asks : List Call) (w : Worker) (r : Worker × Bool)
    : Type 0 where
  pub flag : r.1 ≡ answered respond asks w.calls
  pub made : r.1 ≡ true → r.0.calls ≡ made_after asks w.calls

answer_then-is_answer : (o : Option ℕ) → is_answer o ≡ answer_then o true
answer_then-is_answer none = refl
answer_then-is_answer (some n) = refl

write_upserts-Tried :
    (respond : Respond) (table : String) (schema : StreamSchema) (rows : List Row) (w : Worker)
    → Tried respond (write_call table schema rows) w (write_upserts respond table schema rows w)
unfolding write_upserts answered made_after
write_upserts-Tried respond table schema [] w = record { flag = refl; made = refl }
write_upserts-Tried respond table schema (row ∷ rows) w = record {
  flag = answer_then-is_answer _;
  made = refl;
}

delete_by-Tried :
    (respond : Respond) (table : String) (pk : List String) (keys : List Row) (w : Worker)
    → Tried respond (delete_call table pk keys) w (delete_by respond table pk keys w)
unfolding answered made_after
delete_by-Tried respond table [] keys w = record { flag = refl; made = refl }
delete_by-Tried respond table (p ∷ pk) [] w = record { flag = refl; made = refl }
delete_by-Tried respond table (p ∷ pk) (key ∷ keys) w = record {
  flag = answer_then-is_answer _;
  made = refl;
}

after_delete-Passes :
    (respond : Respond) (read written : ℕ) (asks : List Call) (w : Worker) (r : Option ℕ × Worker)
    → Tried respond asks w r
    → Passes respond asks w (after_delete read written r)
after_delete-Passes respond read written asks w (none, w') t = record {
  flag = t.flag;
  made = λ e. t.made;
}
after_delete-Passes respond read written asks w (some n, w') t = record {
  flag = t.flag;
  made = λ e. t.made;
}

-- A step that passed, then another.
Passes-then :
    (respond : Respond) (xs ys : List Call) (w w' : Worker) (r : Worker × Bool)
    → answered respond xs w.calls ≡ true
    → w'.calls ≡ made_after xs w.calls
    → Passes respond ys w' r
    → Passes respond (xs ++ ys) w r
Passes-then respond xs ys w w' r done made p = record {
  flag = rw (answered-append respond xs ys w.calls, done, ← made) p.flag;
  made = λ e. p.made e ∙ ap (made_after ys) made ∙ sym (made_after-append xs ys w.calls);
}

-- A step that was refused ends the batch.
Passes-stop :
    (respond : Respond) (xs ys : List Call) (w w' : Worker)
    → answered respond xs w.calls ≡ false
    → Passes respond (xs ++ ys) w (w', false)
Passes-stop respond xs ys w w' refused = record {
  flag = rw (answered-append respond xs ys w.calls, refused) refl;
  made = λ e. absurd (ground arith);
}

after_write-Passes :
    (respond : Respond) (table : String) (schema : StreamSchema) (evs : List ChangeEvent)
    (asks : List Call) (w : Worker) (r : Option ℕ × Worker)
    → Tried respond asks w r
    → Passes respond
        (asks ++ delete_call table schema.primary_key (asked_keys evs))
        w
        (after_write respond table schema evs r)
unfolding delete_rows
after_write-Passes respond table schema evs asks w (none, w') t =
    Passes-stop respond asks _ w w' (sym t.flag)
after_write-Passes respond table schema evs asks w (some n, w') t =
    let tried = delete_by-Tried respond table schema.primary_key (deletes evs) w' in
    Passes-then respond asks _ w w' _ (sym t.flag) t.made (
      rw (← deletes-asked_keys evs) (
        after_delete-Passes respond (length evs) n _ w'
          (delete_rows respond table schema (deletes evs) w') tried))

apply_known-Passes :
    (respond : Respond) (now : ℕ) (known : Option (StreamSchema × String)) (evs : List ChangeEvent)
    (w : Worker)
    → Passes respond (stream_calls now known evs) w (apply_known respond now known evs w)
unfolding apply_stream answered made_after
apply_known-Passes respond now none evs w = record { flag = refl; made = λ e. refl }
apply_known-Passes respond now (some (schema, table)) evs w =
    let tried = write_upserts-Tried respond table schema (upserts now schema evs) w in
    rw (← upserts-asked_rows now schema evs) (
      after_write-Passes respond table schema evs _ w
        (write_upserts respond table schema (upserts now schema evs) w) tried)

-- The worker's steps over a batch pass just when the destination answers all that it asks for.
pub apply_groups-Passes :
    (respond : Respond) (now : ℕ) (streams : Streams) (groups : Dict (List ChangeEvent))
    (w : Worker)
    → Passes respond (batch_calls now streams groups) w (apply_groups respond now streams groups w)
unfolding apply_groups batch_calls
apply_groups-Passes respond now streams [] w =
    unfold answered in unfold made_after in record { flag = refl; made = λ e. refl }
apply_groups-Passes respond now streams ((name, evs) ∷ groups) w =
    let known = Dict.get name streams in
    let r = apply_known respond now known evs w in
    let one = apply_known-Passes respond now known evs w in
    elim (Bool-cases r.1) [
      | inl passed ↦ rw passed (
          Passes-then respond (stream_calls now known evs) _ w r.0 _ (sym one.flag ∙ passed)
            (one.made passed) (apply_groups-Passes respond now streams groups r.0))
      | inr raised ↦
          rw raised
            (Passes-stop respond (stream_calls now known evs) _ w r.0 (sym one.flag ∙ raised))
    ]

-- `persist_state` and `move_position` make no call.
persist_state-calls :
    (force : Bool) (now : ℕ) (w : Worker) → (persist_state force now w).calls ≡ w.calls
unfolding persist_state
persist_state-calls force now w = ground arith

pub on_batch-Passes :
    (respond : Respond) (streams : Streams) (batch : Batch) (w : Worker)
    → Passes respond
        (batch_calls batch.at streams (by_stream batch.events))
        w
        (on_batch respond streams batch w)
unfolding on_batch apply_batch move_position
on_batch-Passes respond streams batch w =
    let p =
      subst
        (λ g.
          Passes respond (batch_calls batch.at streams g) w
            (apply_groups respond batch.at streams (group [] batch.events) w))
        (group-by_stream batch.events)
        (apply_groups-Passes respond batch.at streams (group [] batch.events) w) in
    let r = apply_groups respond batch.at streams (group [] batch.events) w in
    elim (Bool-cases r.1) [
      | inl passed ↦ rw passed (record {
        flag = sym passed ∙ p.flag;
        made = λ e. persist_state-calls false batch.at _ ∙ p.made passed;
      })
      | inr raised ↦
          rw raised (record { flag = sym raised ∙ p.flag; made = λ e. absurd (ground arith) })
    ]
