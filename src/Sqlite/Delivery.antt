-- ===== src/Sqlite/Delivery.antt =====
-- What the loop over the journal hands over.
use holypipe.Sqlite.Ids.{
  Ascends-lower, take-drop, above-last_of, above-above, batch_of-append, last_of-take-ge,
  Ascends-above, Ascends-append, above-append, IsLog,
}
use mathlib.Core.Path.{subst}
use mathlib.Core.List.{append_assoc, append-nil}
use holypipe.Models.{StreamSchema}
use holypipe.Connector.{ChangeEvent, Row}
use holypipe.Sqlite.Journal.{
  fires, hand_rows, Accepts, Event, Handed, change_event, log, tables, JournalRow, Poller, above,
  batch_of, last_of,
}
use holypipe.Prelude.{
  then_onward, drop, take, ℕ, ◌≡◌, ◌∙◌, refl, sym, ap, inl, inr, ◌⊎◌, String, Bool, true, List, [],
  ◌∷◌, ◌++◌, arith, contains, if◌then◌else◌,
}
use holypipe.Sqlite.Journal.{polls, fires, Event, hand_rows, poll, step, run, log}

pub delivered : List Handed → List ChangeEvent
delivered [] = []
delivered (h ∷ hs) = h.events ++ delivered hs

delivered-append :
    (hs : List Handed) (evs : List ChangeEvent) (id : ℕ)
    → delivered (hs ++ record { events = evs; last_id = id } ∷ []) ≡ delivered hs ++ evs
unfolding delivered
delivered-append [] evs id = append-nil evs
delivered-append (h ∷ hs) evs id =
    ap (λ t. h.events ++ t) (delivered-append hs evs id)
    ∙ sym (append_assoc h.events (delivered hs) evs)

List-cases :
    (rows : List JournalRow)
    → (rows ≡ []) ⊎ (e : JournalRow) × (rest : List JournalRow) × (rows ≡ e ∷ rest)
List-cases [] = inl refl
List-cases (e ∷ rest) = inr (e, rest, refl)

module _ (decode : String → Row) (streams : List StreamSchema) where
  -- The events of the rows that the loop has not read yet.
  pub pending : Poller → List ChangeEvent
  unfolding batch_of above
  pending s = batch_of decode streams (above s.last_id s.journal)

  -- The event of a wanted table's trigger.
  abbrev logged_one : Event → List ChangeEvent
  logged_one polls = []
  logged_one (fires table op row_json) =
      if contains (tables streams) table
      then change_event decode streams table op row_json ∷ []
      else []

  pub logged : List Event → List ChangeEvent
  logged [] = []
  logged (e ∷ events) = logged_one e ++ logged events

  abbrev reached : Poller → List ChangeEvent
  reached s = delivered s.handed ++ pending s

  record Stepped (s : Poller) (r : Poller × Bool) (new : List ChangeEvent) : Type 0 where
    passed : r.1 ≡ true
    valid : IsLog r.0
    same : reached r.0 ≡ reached s ++ new

  pending-log :
      (table op row_json : String) (s : Poller)
      → IsLog s
      → pending (log table op row_json s) ≡ pending s ++ logged_one (fires table op row_json)
  unfolding pending log batch_of above
  pending-log table op row_json s v =
      let e : JournalRow = record {
        id = s.next_id;
        table_name = table;
        op = op;
        row_json = row_json;
      } in
      let new : above s.last_id (e ∷ []) ≡ e ∷ [] = ground (arith, v.before) in
      ap (batch_of decode streams)
        (above-append s.last_id s.journal (e ∷ []) ∙ ap (λ t. above s.last_id s.journal ++ t) new)
      ∙ batch_of-append decode streams (above s.last_id s.journal) (e ∷ [])

  log-Stepped :
      (table op row_json : String) (s : Poller)
      → IsLog s
      → Stepped s (log table op row_json s, true) (logged_one (fires table op row_json))
  unfolding log
  log-Stepped table op row_json s v = record {
    passed = refl;
    valid = record {
      ordered = Ascends-append 0 s.journal _ s.next_id refl v.ordered;
      before = omega (arith, v.before);
    };
    same =
        ap (λ t. delivered s.handed ++ t) (pending-log table op row_json s v)
        ∙ sym
            (append_assoc (delivered s.handed) (pending s) (logged_one (fires table op row_json)));
  }

  module _ (accepts : Accepts) (always : (hs : List Handed) → accepts hs ≡ true) where
    hand_rows-trim :
        (last : ℕ) (batch : List ChangeEvent) (s : Poller)
        → let r = hand_rows accepts last batch s in
          (r.1 ≡ true)
          × (r.0.journal ≡ above last s.journal)
          × (r.0.last_id ≡ last)
          × (r.0.next_id ≡ s.next_id)
          × (delivered r.0.handed ≡ delivered s.handed ++ batch)
    unfolding hand_rows
    hand_rows-trim last [] s = (refl, refl, refl, refl, sym (append-nil (delivered s.handed)))
    hand_rows-trim last (ev ∷ evs) s =
        rw (always (s.handed ++ record { events = ev ∷ evs; last_id = last } ∷ []))
          (refl, refl, refl, refl, delivered-append s.handed (ev ∷ evs) last)

    poll_rows-Stepped :
        (limit : ℕ) (s : Poller)
        → IsLog s
        → let rows = take limit (above s.last_id s.journal) in
          Stepped s (hand_rows accepts (last_of s.last_id rows) (batch_of decode streams rows) s) []
    unfolding pending
    poll_rows-Stepped limit s v =
        let unread = above s.last_id s.journal in
        let rows = take limit unread in
        let last = last_of s.last_id rows in
        let batch = batch_of decode streams rows in
        let (passed, journal, last_id, next_id, given) = hand_rows-trim last batch s in
        let ascending = Ascends-above s.last_id 0 s.journal s.next_id v.before v.ordered in
        let (up, below) = last_of-take-ge limit s.last_id unread s.next_id ascending in
        let reread : above last (above last s.journal) ≡ drop limit unread =
          above-above last last s.journal (omega arith)
          ∙ sym (above-above last s.last_id s.journal up)
          ∙ above-last_of limit s.last_id unread s.next_id ascending in
        let whole = Ascends-above last 0 s.journal s.next_id below v.ordered in
        let r = hand_rows accepts last batch s in
        let left : pending r.0 ≡ batch_of decode streams (drop limit unread) =
          rw (last_id, journal) (ap (batch_of decode streams) reread) in
        let all_of : batch ++ batch_of decode streams (drop limit unread) ≡ pending s =
          sym (batch_of-append decode streams rows (drop limit unread))
          ∙ ap (batch_of decode streams) (take-drop limit unread) in
        record {
          passed = passed;
          valid = record {
            ordered =
                rw (journal, next_id)
                  (Ascends-lower 0 last (above last s.journal) s.next_id (omega arith) whole);
            before = omega (arith, below, last_id, next_id);
          };
          same =
              ap (λ t. t ++ pending r.0) given
              ∙ ap (λ t. (delivered s.handed ++ batch) ++ t) left
              ∙ append_assoc (delivered s.handed) batch
                  (batch_of decode streams (drop limit unread))
              ∙ ap (λ t. delivered s.handed ++ t) all_of
              ∙ sym (append-nil (reached s));
        }

    poll-Stepped :
        (limit : ℕ) (s : Poller) → IsLog s → Stepped s (poll decode streams accepts limit s) []
    unfolding poll
    poll-Stepped limit s v = elim (List-cases (take limit (above s.last_id s.journal))) [
      | inl none_left ↦
          rw none_left (record { passed = refl; valid = v; same = sym (append-nil (reached s)) })
      | inr (e, rest, some_left) ↦
          let handed = poll_rows-Stepped limit s v in
          rw some_left (
            subst
              (λ rows.
                Stepped s
                  (hand_rows accepts (last_of s.last_id rows) (batch_of decode streams rows) s) [])
              some_left handed)
    ]

    step-Stepped :
        (limit : ℕ) (e : Event) (s : Poller)
        → IsLog s
        → Stepped s (step decode streams accepts limit e s) (logged_one e)
    unfolding step
    step-Stepped limit polls s v = poll-Stepped limit s v
    step-Stepped limit (fires table op row_json) s v = log-Stepped table op row_json s v

    run-Stepped :
        (limit : ℕ) (events : List Event) (s : Poller)
        → IsLog s
        → Stepped s (run decode streams accepts limit events s) (logged events)
    unfolding run logged
    run-Stepped limit [] s v = record {
      passed = refl;
      valid = v;
      same = sym (append-nil (reached s));
    }
    run-Stepped limit (e ∷ events) s v =
        let first = step decode streams accepts limit e s in
        let one = step-Stepped limit e s v in
        let onward = then_onward first (run decode streams accepts limit events) one.passed in
        let rest = run-Stepped limit events first.0 one.valid in
        rw onward (record {
          passed = rest.passed;
          valid = rest.valid;
          same =
              rest.same
              ∙ ap (λ t. t ++ logged events) one.same
              ∙ append_assoc (reached s) (logged_one e) (logged events);
        })

-- However triggers and rounds of the loop follow each other, while `on_batch` does not raise: what
-- was handed over, followed by what the journal still holds for the loop, is what was handed over
-- and held at the start, followed by the events that the triggers of the wanted tables logged
-- since, each once and in their order.
pub run-delivered :
    (decode : String → Row) (streams : List StreamSchema) (accepts : Accepts) (limit : ℕ)
    (events : List Event) (s : Poller)
    → ((hs : List Handed) → accepts hs ≡ true)
    → IsLog s
    → let r = run decode streams accepts limit events s in
      (r.1 ≡ true)
      × (delivered r.0.handed ++ pending decode streams r.0
          ≡ (delivered s.handed ++ pending decode streams s) ++ logged decode streams events)
run-delivered decode streams accepts limit events s always v =
    let all_of = run-Stepped decode streams accepts always limit events s v in
    (all_of.passed, all_of.same)
