-- ===== src/Sqlite/Journal.antt =====
-- SqliteSource.stream_changes: the loop that polls the journal which the triggers fill. The journal
-- is in the order of its ids, which AUTOINCREMENT gives once and in order. `decode` is
-- `normalize_record(json.loads(...))`; `on_batch` raises or not, as `accepts` says of what was
-- handed over. The position that is set on an event is not modelled: nothing reads it.
use holypipe.Models.{StreamSchema}
use holypipe.Connector.{key_of, ChangeEvent, Row}
use holypipe.Prelude.{
  take, ◌⨾◌, ℕ, suc, String, Bool, true, false, Option, none, some, List, [], ◌∷◌, ◌++◌, map, ltb,
  keep, contains, if◌then◌else◌,
}
use holypipe.Dict
use holypipe.Dict.{Dict}

-- A row of the journal.
pub record JournalRow : Type 0 where
  pub id : ℕ
  pub table_name : String
  pub op : String
  pub row_json : String

-- A call of `on_batch`.
pub record Handed : Type 0 where
  pub events : List ChangeEvent
  pub last_id : ℕ

-- `stored_id` is `state["last_id"]` as the loop itself sets it.
pub record Poller : Type 0 where
  pub journal : List JournalRow
  pub next_id : ℕ
  pub last_id : ℕ
  pub stored_id : Option ℕ
  pub handed : List Handed

abbrev pub Accepts : Type 0
Accepts = List Handed → Bool

-- The row that a trigger adds.
unfoldable pub log : String → String → String → Poller → Poller
log table op row_json s = record s {
  journal =
      s.journal ++ record { id = s.next_id; table_name = table; op = op; row_json = row_json } ∷ [];
  next_id = suc s.next_id;
}

-- `{s.table: s.primary_key for s in streams}`
abbrev pub pk_by_table : List StreamSchema → Dict (List String) → Dict (List String)
pk_by_table [] d = d
pk_by_table (s ∷ streams) d = pk_by_table streams (Dict.put s.table s.primary_key d)

abbrev pk_or_none : Option (List String) → List String
pk_or_none none = []
pk_or_none (some pk) = pk

abbrev pub tables : List StreamSchema → List String
tables streams = map (λ (s : StreamSchema). s.table) streams

abbrev pub change_event :
    (String → Row) → List StreamSchema → String → String → String → ChangeEvent
change_event decode streams table op row_json = record {
  stream = table;
  op = op;
  data_row = decode row_json;
  key = key_of (pk_or_none (Dict.get table (pk_by_table streams []))) (decode row_json);
}

-- The batch of the rows: their events, of the tables that are wanted.
unfoldable pub batch_of : (String → Row) → List StreamSchema → List JournalRow → List ChangeEvent
batch_of decode streams [] = []
batch_of decode streams (e ∷ rows) =
    let rest = batch_of decode streams rows in
    if contains (tables streams) e.table_name
    then change_event decode streams e.table_name e.op e.row_json ∷ rest
    else rest

-- `WHERE id > ?`
unfoldable pub above : ℕ → List JournalRow → List JournalRow
above id entries = keep (λ e. ltb id e.id) entries

-- `last_id = row_id`, in a loop over the rows.
unfoldable pub last_of : ℕ → List JournalRow → ℕ
last_of last_id [] = last_id
last_of last_id (e ∷ rows) = last_of e.id rows

-- `DELETE ... WHERE id <= ?`
abbrev pub trim : ℕ → Poller → Poller
trim last_id s = record s { last_id = last_id; journal = above last_id s.journal }

unfoldable pub hand_rows : Accepts → ℕ → List ChangeEvent → Poller → Poller × Bool
unfolding above
hand_rows accepts last_id [] s = (trim last_id (record s { stored_id = some last_id }), true)
hand_rows accepts last_id (ev ∷ evs) s =
    let handed = s.handed ++ record { events = ev ∷ evs; last_id = last_id } ∷ [] in
    if accepts handed
    then (trim last_id (record s { handed = handed }), true)
    else (record s { last_id = last_id; handed = handed }, false)

abbrev pub poll_rows :
    (String → Row) → List StreamSchema → Accepts → List JournalRow → Poller → Poller × Bool
poll_rows decode streams accepts [] s = (s, true)
poll_rows decode streams accepts (row ∷ rows) s =
    hand_rows accepts (last_of s.last_id (row ∷ rows)) (batch_of decode streams (row ∷ rows)) s

-- A round of the loop; `limit` is `settings.cdc_flush_records`.
unfoldable pub poll : (String → Row) → List StreamSchema → Accepts → ℕ → Poller → Poller × Bool
unfolding above last_of batch_of hand_rows
poll decode streams accepts limit s =
    poll_rows decode streams accepts (take limit (above s.last_id s.journal)) s

-- What happens to the database in turn: a trigger fires, or the loop makes a round.
pub data Event : Type 0 where
  fires : String → String → String → Event
  polls : Event

unfoldable pub step :
    (String → Row) → List StreamSchema → Accepts → ℕ → Event → Poller → Poller × Bool
unfolding log poll
step decode streams accepts limit (fires table op row_json) s = (log table op row_json s, true)
step decode streams accepts limit polls s = poll decode streams accepts limit s

unfoldable pub run :
    (String → Row) → List StreamSchema → Accepts → ℕ → List Event → Poller → Poller × Bool
unfolding step
run decode streams accepts limit [] s = (s, true)
run decode streams accepts limit (e ∷ events) s =
    step decode streams accepts limit e s ⨾ run decode streams accepts limit events
