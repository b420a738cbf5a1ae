-- ===== src/Mysql/Binlog.antt =====
-- MysqlSource.stream_changes: its loop, a round for each event of the binlog reader, or for none
-- within its wait. A round carries one reading of the clock, in microseconds; the stop event is set
-- behind the last. `on_batch` raises or not, as `accepts` says of what was handed over. The
-- position that is set on a change is not modelled: nothing reads it.
use holypipe.Prelude.Int.{pos}
use holypipe.Connector.{key_of, value_or_null, ChangeEvent, Row}
use holypipe.Models.{int, StreamSchema, Value, text}
use holypipe.Connector.Values.{DriverRow, Printers, normalize_record}
use Prim.Native.String.{◌++◌ as text_append}
use holypipe.Prelude.{
  ◌⨾◌, ℕ, ◌+◌, String, Bool, true, false, not, ◌&&◌, ◌||◌, Option, none, some, List, [], ◌∷◌, ◌++◌,
  map, leb, contains, length, if◌then◌else◌,
}
use holypipe.Dict
use holypipe.Dict.{Dict}

pub record Settings : Type 0 where
  pub cdc_flush_records : ℕ
  pub cdc_flush_seconds : ℕ

-- The rows of WriteRowsEvent, UpdateRowsEvent, with those before, and DeleteRowsEvent.
pub data RowsEvent : Type 0 where
  write_rows delete_rows : List DriverRow → RowsEvent
  update_rows : List (DriverRow × DriverRow) → RowsEvent

pub record BinlogEvent : Type 0 where
  pub schema : String
  pub table : String
  pub rows : RowsEvent

-- `log_file` and `log_pos`
pub record Position : Type 0 where
  pub log_file : Value
  pub log_pos : Value

pub data Round : Type 0 where
  quiet : ℕ → Round
  -- The event, the reader's file and position behind it, the time.
  event : BinlogEvent → String → ℕ → ℕ → Round

-- A call of `on_batch`.
pub record Handed : Type 0 where
  pub events : List ChangeEvent
  pub position : Position

-- The calls of `on_batch` stand newest first.
pub record Stream : Type 0 where
  pub buffer : List ChangeEvent
  pub handed : List Handed
  pub last_flush : ℕ
  pub position : Position

abbrev pub Accepts : Type 0
Accepts = List Handed → Bool

-- `{s.name: s.primary_key for s in streams}`
abbrev pk_by_name : List StreamSchema → Dict (List String) → Dict (List String)
pk_by_name [] d = d
pk_by_name (s ∷ streams) d = pk_by_name streams (Dict.put s.name s.primary_key d)

abbrev or_no_key : Option (List String) → List String
or_no_key none = []
or_no_key (some pk) = pk

abbrev change : String → String → Row → Row → ChangeEvent
change stream op data_row key = record { stream = stream; op = op; data_row = data_row; key = key }

-- A change for each row; the key of an update is that of the row before.
unfoldable pub row_changes : Printers → String → List String → RowsEvent → List ChangeEvent
unfolding normalize_record
row_changes py stream pk (write_rows rows) =
    map
      (λ row.
        let data_row = normalize_record py row in
        change stream "insert" data_row (key_of pk data_row))
      rows
row_changes py stream pk (update_rows rows) =
    map
      (λ (before, after).
        change stream "update" (normalize_record py after) (key_of pk (normalize_record py before)))
      rows
row_changes py stream pk (delete_rows rows) =
    map
      (λ row.
        let data_row = normalize_record py row in
        change stream "delete" data_row (key_of pk data_row))
      rows

-- f"{event.schema}.{event.table}"
abbrev pub stream_name : BinlogEvent → String
stream_name ev = text_append ev.schema (text_append "." ev.table)

-- What a round adds to the buffer.
unfoldable pub changes_of : Printers → List StreamSchema → Round → List ChangeEvent
unfolding row_changes
changes_of py streams (quiet now) = []
changes_of py streams (event ev file at now) =
    if contains (map (λ (s : StreamSchema). s.name) streams) (stream_name ev)
    then row_changes py (stream_name ev)
        (or_no_key (Dict.get (stream_name ev) (pk_by_name streams []))) ev.rows
    else []

abbrev pub moved : Round → Position → Position
moved (quiet now) p = p
moved (event ev file log_pos now) p = record { log_file = text file; log_pos = int (pos log_pos) }

abbrev pub handed_over : Stream → List Handed
handed_over s = record { events = s.buffer; position = s.position } ∷ s.handed

-- `if buffer: on_batch(...)`; a call that raises leaves the buffer.
unfoldable pub hand_over : Accepts → List ChangeEvent → Stream → Stream × Bool
hand_over accepts [] s = (s, true)
hand_over accepts (ev ∷ evs) s =
    if accepts (handed_over s)
    then (record s { handed = handed_over s; buffer = [] }, true)
    else (record s { handed = handed_over s }, false)

abbrev pub flushed_at : ℕ → Stream → Stream × Bool
flushed_at now s = (record s { last_flush = now }, true)

unfoldable pub flush : Accepts → ℕ → Stream → Stream × Bool
unfolding hand_over
flush accepts now s = hand_over accepts s.buffer s ⨾ flushed_at now

abbrev pub flush_if : Accepts → ℕ → Bool → Stream → Stream × Bool
flush_if accepts now due s = let flushed = flush accepts now s in if due then flushed else (s, true)

abbrev is_empty : List ChangeEvent → Bool
is_empty [] = true
is_empty (ev ∷ evs) = false

abbrev is_time : Settings → ℕ → Stream → Bool
is_time settings now s = leb (s.last_flush + settings.cdc_flush_seconds) now

-- Whether the buffer is flushed at the end of a round.
abbrev pub is_due : Settings → Round → Stream → Bool
is_due settings (quiet now) s = not (is_empty s.buffer) && is_time settings now s
is_due settings (event ev file at now) s =
    leb settings.cdc_flush_records (length s.buffer) || is_time settings now s

abbrev pub time_of : Round → ℕ
time_of (quiet now) = now
time_of (event ev file at now) = now

-- What was read, before the flush.
abbrev pub taken : Printers → List StreamSchema → Round → Stream → Stream
taken py streams round s = record s {
  buffer = s.buffer ++ changes_of py streams round;
  position = moved round s.position;
}

unfoldable pub step :
    Settings → Printers → List StreamSchema → Accepts → Round → Stream → Stream × Bool
unfolding flush changes_of
step settings py streams accepts round s =
    let read = taken py streams round s in
    flush_if accepts (time_of round) (is_due settings round read) read

unfoldable pub rounds_from :
    Settings → Printers → List StreamSchema → Accepts → List Round → Stream → Stream × Bool
unfolding step
rounds_from settings py streams accepts [] s = (s, true)
rounds_from settings py streams accepts (round ∷ rounds) s =
    step settings py streams accepts round s ⨾ rounds_from settings py streams accepts rounds

-- The position in the stored state.
abbrev pub position_in : Dict Value → Position
position_in state = record {
  log_file = value_or_null (Dict.get "log_file" state);
  log_pos = value_or_null (Dict.get "log_pos" state);
}

abbrev pub from_start : ℕ → Dict Value → Stream
from_start now state = record {
  buffer = [];
  handed = [];
  last_flush = now;
  position = position_in state;
}

-- The loop from a start at a time, with the last flush once the stop event is set.
unfoldable pub stream_changes :
    Settings
    → Printers
    → List StreamSchema
    → Accepts
    → ℕ
    → Dict Value
    → List Round
    → ℕ
    → Stream × Bool
unfolding flush rounds_from
stream_changes settings py streams accepts start state rounds now =
    rounds_from settings py streams accepts rounds (from_start start state) ⨾ flush accepts now
