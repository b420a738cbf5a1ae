-- ===== src/Postgres/Stream.antt =====
-- PostgresSource.stream_changes: its loop, a round for each message that it reads or waits for in
-- vain. A round carries one reading of the clock, in microseconds; the stop event is set behind the
-- last. `on_batch` raises or not, as `accepts` says of what was handed over. The position that
-- is set on an event is not modelled: nothing reads it.
use holypipe.Models.{second}
use holypipe.Postgres.Decode.{lsn_to_str}
use holypipe.Connector.{ChangeEvent}
use holypipe.Prelude.{
  ◌⨾◌, ℕ, ◌+◌, ◌*◌, String, Bool, true, false, not, ◌||◌, Option, none, some, List, [], ◌∷◌, ◌++◌,
  leb, keep, contains, length, if◌then◌else◌,
}

pub record Settings : Type 0 where
  pub cdc_flush_records : ℕ
  pub cdc_flush_seconds : ℕ

pub data Round : Type 0 where
  -- No message came: the end of the server's log, the time.
  quiet : ℕ → ℕ → Round
  -- The payload, `data_start`, the end of the server's log, the time.
  message : String → ℕ → ℕ → ℕ → Round

-- A call of `on_batch`.
pub record Handed : Type 0 where
  pub events : List ChangeEvent
  pub lsn : Option String

-- `confirmed` is the last `flush_lsn` sent to the server.
pub record Stream : Type 0 where
  pub buffer : List ChangeEvent
  pub handed : List Handed
  pub last_flush : ℕ
  pub last_lsn : Option String
  pub wal_end : ℕ
  pub confirmed : Option ℕ

abbrev pub Accepts : Type 0
Accepts = List Handed → Bool

abbrev pub handed_over : Stream → List Handed
handed_over s = s.handed ++ record { events = s.buffer; lsn = s.last_lsn } ∷ []

-- `if buffer: on_batch(...)`; a call that raises leaves the buffer.
unfoldable pub hand_over : Accepts → List ChangeEvent → Stream → Stream × Bool
hand_over accepts [] s = (s, true)
hand_over accepts (ev ∷ evs) s =
    if accepts (handed_over s)
    then (record s { handed = handed_over s; buffer = [] }, true)
    else (record s { handed = handed_over s }, false)

abbrev pub sent_feedback : ℕ → Stream → Stream × Bool
sent_feedback now s = (record s { confirmed = some s.wal_end; last_flush = now }, true)

unfoldable pub flush : Accepts → ℕ → Stream → Stream × Bool
unfolding hand_over
flush accepts now s = hand_over accepts s.buffer s ⨾ sent_feedback now

-- The events of streams that are wanted.
abbrev pub select_wanted : List String → List ChangeEvent → List ChangeEvent
select_wanted wanted events = keep (λ ev. contains wanted ev.stream) events

abbrev pub is_empty : List ChangeEvent → Bool
is_empty [] = true
is_empty (ev ∷ evs) = false

abbrev pub flush_if : Accepts → ℕ → Bool → Stream → Stream × Bool
flush_if accepts now due s = let flushed = flush accepts now s in if due then flushed else (s, true)

-- A round; `decode` is the decoder of the slot's plugin.
unfoldable pub step :
    Settings → (String → List ChangeEvent) → List String → Accepts → Round → Stream → Stream × Bool
unfolding flush lsn_to_str
step settings decode wanted accepts (quiet wal_end now) s =
    flush_if accepts now (not (is_empty s.buffer) || leb (s.last_flush + 10 * second) now)
      (record s { wal_end = wal_end })
step settings decode wanted accepts (message payload data_start wal_end now) s =
    let buffer = s.buffer ++ select_wanted wanted (decode payload) in
    flush_if accepts now
      (leb settings.cdc_flush_records (length buffer)
        || leb (s.last_flush + settings.cdc_flush_seconds) now)
      (record s { buffer = buffer; last_lsn = some (lsn_to_str data_start); wal_end = wal_end })

unfoldable pub rounds_from :
    Settings
    → (String → List ChangeEvent)
    → List String
    → Accepts
    → List Round
    → Stream
    → Stream × Bool
unfolding step
rounds_from settings decode wanted accepts [] s = (s, true)
rounds_from settings decode wanted accepts (round ∷ rounds) s =
    step settings decode wanted accepts round s ⨾ rounds_from settings decode wanted accepts rounds

-- The last flush, once the stop event is set.
unfoldable pub stream_from :
    Settings
    → (String → List ChangeEvent)
    → List String
    → Accepts
    → List Round
    → ℕ
    → Stream
    → Stream × Bool
unfolding flush rounds_from
stream_from settings decode wanted accepts rounds now s =
    rounds_from settings decode wanted accepts rounds s
    ⨾ (λ s. flush_if accepts now (not (is_empty s.buffer)) s)

abbrev pub from_start : ℕ → Option String → Stream
from_start now lsn = record {
  buffer = [];
  handed = [];
  last_flush = now;
  last_lsn = lsn;
  wal_end = 0;
  confirmed = none;
}

-- From a start at a time, with the position in the state.
abbrev pub stream_changes :
    Settings
    → (String → List ChangeEvent)
    → List String
    → Accepts
    → ℕ
    → Option String
    → List Round
    → ℕ
    → Stream × Bool
stream_changes settings decode wanted accepts start lsn rounds now =
    stream_from settings decode wanted accepts rounds now (from_start start lsn)
