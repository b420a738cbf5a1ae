-- ===== src/Postgres/Decode.antt =====
-- `_parse_test_decoding` and `_parse_wal2json`: the change events of one message of the log.
use Prim.Native.String.{◌++◌ as text_append}
use holypipe.Prelude.{
  ℕ, zero, suc, ◌/◌, ◌%◌, ◌^◌, String, not, ◌||◌, Option, none, some, List, [], ◌∷◌, ltb, contains,
  str_eq, if◌then◌else◌,
}
use holypipe.Dict
use holypipe.Dict.{Dict}
use holypipe.Models.{Value}
use holypipe.Text.{without_char, cut, strip, after, lstrip, splitlines}
use holypipe.Connector.{Row, ChangeEvent}
use holypipe.Postgres.Scan.{scan}

abbrev columns_or_none : Option Row → Row
columns_or_none none = []
columns_or_none (some row) = row

-- `_scan_columns`; the scanner ends on every text (Rounds).
abbrev pub columns_of : (String → Option ℕ) → String → Row
columns_of float_of s = columns_or_none (scan float_of s)

-- `x or y` on rows, as in `key or data`.
abbrev pub or_row : Row → Row → Row
or_row [] other = other
or_row (entry ∷ row) other = entry ∷ row

-- The last lines of both decoders.
abbrev pub event_of : String → String → Row → Row → ChangeEvent
event_of stream op data_row key =
    let filled = if str_eq op "delete" then or_row data_row key else data_row in
    record { stream = stream; op = op; data_row = filled; key = or_row key filled }

-- `_OP_RE`: the operation, and what follows it and the spaces.
abbrev with_op : String → String → String × String
with_op op rest = (op, lstrip rest)

unfoldable pub operation : String → Option (String × String)
unfolding lstrip after
operation s = elim (after "INSERT:" s) [
  | some rest ↦ some (with_op "insert" rest)
  | none ↦ elim (after "UPDATE:" s) [
    | some rest ↦ some (with_op "update" rest)
    | none ↦ elim (after "DELETE:" s) [ some rest ↦ some (with_op "delete" rest) | none ↦ none ]
  ]
]

-- The key, and the body that remains.
unfoldable pub old_key : (String → Option ℕ) → String → Row × String
unfolding after cut
old_key float_of body = elim (after "old-key:" body) [
  | none ↦ ([], body)
  | some tuple ↦ elim (cut "new-tuple:" tuple) [
    | some (before, behind) ↦ (columns_of float_of before, behind)
    | none ↦ (columns_of float_of tuple, "")
  ]
]

abbrev data_of : (String → Option ℕ) → String → Row
data_of float_of body = if str_eq (strip body) "" then [] else columns_of float_of body

unfoldable pub decode_body : (String → Option ℕ) → String → String → String → ChangeEvent
unfolding old_key strip
decode_body float_of relation op body =
    let (key, rest) = old_key float_of body in event_of relation op (data_of float_of rest) key

-- A line of the message, once stripped.
unfoldable pub decode_stripped : (String → Option ℕ) → String → Option ChangeEvent
unfolding strip after cut operation without_char decode_body
decode_stripped float_of line = elim (after "table " line) [
  | none ↦ none
  | some rest ↦ elim (cut ": " rest) [
    | none ↦ none
    | some (relation, behind) ↦ elim (operation behind) [
      | none ↦ none
      | some (op, body) ↦ some (decode_body float_of (without_char b'"' (strip relation)) op body)
    ]
  ]
]

unfoldable pub decode_line : (String → Option ℕ) → String → Option ChangeEvent
unfolding strip decode_stripped
decode_line float_of line = decode_stripped float_of (strip line)

abbrev pub add_event : Option ChangeEvent → List ChangeEvent → List ChangeEvent
add_event none events = events
add_event (some event) events = event ∷ events

unfoldable pub decode_lines : (String → Option ℕ) → List String → List ChangeEvent
unfolding decode_line
decode_lines float_of [] = []
decode_lines float_of (line ∷ lines) =
    add_event (decode_line float_of line) (decode_lines float_of lines)

unfoldable pub parse_test_decoding : (String → Option ℕ) → String → List ChangeEvent
unfolding splitlines decode_lines
parse_test_decoding float_of payload = decode_lines float_of (splitlines payload)

-- An entry of `change` in a document of wal2json. A key that is missing, or null where the code
-- says `or []`, is `none` or the empty list; the values are normalised.
pub record Change : Type 0 where
  pub schema : Option String
  pub table : Option String
  pub kind : Option String
  pub columnnames : List String
  pub columnvalues : List Value
  pub keynames : List String
  pub keyvalues : List Value

-- `dict(zip(names, values))`, after the entries there are.
unfoldable pub zip_onto : Row → List String → List Value → Row
zip_onto row [] vs = row
zip_onto row (n ∷ ns) [] = row
zip_onto row (n ∷ ns) (v ∷ vs) = zip_onto (Dict.put n v row) ns vs

abbrev text_or : String → Option String → String
text_or default none = default
text_or default (some s) = s

abbrev kinds : List String
kinds = "insert" ∷ "update" ∷ "delete" ∷ []

unfoldable pub decode_change : Change → Option ChangeEvent
unfolding zip_onto
decode_change c =
    let table = text_or "" c.table in
    let kind = text_or "" c.kind in
    if str_eq table "" || not (contains kinds kind)
    then none
    else some (
        event_of (text_append (text_append (text_or "public" c.schema) ".") table) kind
          (zip_onto [] c.columnnames c.columnvalues) (zip_onto [] c.keynames c.keyvalues))

unfoldable pub decode_changes : List Change → List ChangeEvent
unfolding decode_change
decode_changes [] = []
decode_changes (c ∷ cs) = add_event (decode_change c) (decode_changes cs)

abbrev changes_or_none : Option (List Change) → List ChangeEvent
changes_or_none none = []
changes_or_none (some changes) = decode_changes changes

-- `loads` is `json.loads`, to the document's list `change`; `none` is text that is no JSON.
unfoldable pub parse_wal2json : (String → Option (List Change)) → String → List ChangeEvent
unfolding decode_changes
parse_wal2json loads payload = changes_or_none (loads payload)

-- `_lsn_to_str`
abbrev hex_digits : String
hex_digits = "0123456789ABCDEF"

char_at : ℕ → String → String
char_at i String.[] = ""
char_at zero (String.◌∷◌ c s) = String.◌∷◌ c ""
char_at (suc i) (String.◌∷◌ c s) = char_at i s

-- "%X", of at most as many digits as given.
hex : ℕ → ℕ → String
unfolding char_at
hex zero n = ""
hex (suc k) n =
    let before = hex k (n / 16) in
    if ltb n 16 then char_at n hex_digits else text_append before (char_at (n % 16) hex_digits)

-- A position of the log has 64 bits.
unfoldable pub lsn_to_str : ℕ → String
unfolding hex
lsn_to_str lsn = text_append (text_append (hex 8 (lsn / 2 ^ 32)) "/") (hex 8 (lsn % 2 ^ 32))
