-- ===== src/Postgres/Scan.antt =====
-- `_scan_columns` and `_coerce_unquoted`: the tuples of test_decoding, `name[type]:value ...`. An
-- index `i` into the text is the text from there on. Each round of the outer loop takes one unit
-- of fuel; `none` is a loop that does not end.
use Prim.Native.Char.{Char, code}
use Prim.Native.String.{[], count}
use holypipe.Prelude.{
  [], ℕ, zero, suc, ◌+◌, ◌-◌, ◌*◌, String, Bool, true, false, ◌&&◌, ◌||◌, Option, none, some, leb,
  ◌==◌, str_eq, if◌then◌else◌,
}
use holypipe.Prelude.Int.{ℤ, pos, negsuc}
use holypipe.Dict
use holypipe.Dict.{Dict}
use holypipe.Models.{Value, null, bool, int, float, text}
use holypipe.Connector.{Row}
use holypipe.Postgres.Types.{canonical}
use holypipe.Text.{cut}

-- A character put before the part read.
abbrev pub put : Char → String × String → String × String
put c (part, rest) = (String.◌∷◌ c part, rest)

unfoldable pub skip_spaces : String → String
skip_spaces String.[] = ""
skip_spaces (String.◌∷◌ c s) =
    let rest = skip_spaces s in if code c == b' ' then rest else String.◌∷◌ c s

-- The text up to the closing quote, and what follows; two quotes stand for one. The flag says that
-- the character before was a quote.
unfoldable pub quoted : ℕ → Bool → String → String × String
quoted q pending String.[] = ("", "")
quoted q true (String.◌∷◌ c s) =
    let rest = quoted q false s in if code c == q then put c rest else ("", String.◌∷◌ c s)
quoted q false (String.◌∷◌ c s) =
    let rest = quoted q (code c == q) s in if code c == q then rest else put c rest

-- The type up to the bracket that closes the one before it, at the given depth.
unfoldable pub bracketed : ℕ → String → String × String
bracketed depth String.[] = ("", "")
bracketed depth (String.◌∷◌ c s) =
    let deeper =
      if code c == b'[' then depth + 1 else if code c == b']' then depth - 1 else depth in
    let rest = bracketed deeper s in if code c == b']' && depth == 1 then ("", s) else put c rest

-- The text up to a space.
unfoldable pub word : String → String × String
word String.[] = ("", "")
word (String.◌∷◌ c s) =
    let rest = word s in if code c == b' ' then ("", String.◌∷◌ c s) else put c rest

abbrev pub drop_colon : String → String
drop_colon String.[] = ""
drop_colon (String.◌∷◌ c s) = if code c == b':' then s else String.◌∷◌ c s

-- `int(raw)`, of ASCII digits: a sign, and digits that single underscores may divide. The flag
-- says that the character before was a digit.
abbrev is_digit : ℕ → Bool
is_digit c = leb b'0' c && leb c b'9'

digits : Bool → ℕ → String → Option ℕ
digits after_digit n String.[] = if after_digit then some n else none
digits after_digit n (String.◌∷◌ c s) =
    let rest =
      digits (is_digit (code c)) (if is_digit (code c) then n * 10 + (code c - b'0') else n) s in
    if is_digit (code c) || (after_digit && code c == b'_') then rest else none

abbrev negated : ℕ → ℤ
negated zero = pos zero
negated (suc n) = negsuc n

abbrev as_int : (ℕ → ℤ) → Option ℕ → Option Value
as_int f none = none
as_int f (some n) = some (int (f n))

parse_int : String → Option Value
unfolding digits
parse_int String.[] = none
parse_int (String.◌∷◌ c s) =
    if code c == b'-'
    then as_int negated (digits false 0 s)
    else as_int pos (digits false 0 (if code c == b'+' then s else String.◌∷◌ c s))

abbrev as_float : Option ℕ → Option Value
as_float none = none
as_float (some bits) = some (float bits)

abbrev or_text : String → Option Value → Value
or_text raw none = text raw
or_text raw (some v) = v

-- `float_of` is Python's `float()`, to a bit pattern.
unfoldable pub coerce_unquoted : (String → Option ℕ) → String → String → Value
unfolding parse_int canonical
coerce_unquoted float_of raw native =
    if str_eq raw "null" || str_eq raw "NULL" || str_eq raw ""
    then null
    else if str_eq raw "t" || str_eq raw "true"
    then bool true
    else if str_eq raw "f" || str_eq raw "false"
    then bool false
    else if str_eq (canonical native) "integer"
    then or_text raw (parse_int raw)
    else if str_eq (canonical native) "number"
    then or_text raw (as_float (float_of raw))
    else text raw

-- A name, and the text behind the bracket that follows it; `none` leaves the loop.
abbrev pub opened : String × String → Option (String × String)
opened (name, String.[]) = none
opened (name, String.◌∷◌ c rest) = if code c == b'[' then some (name, rest) else none

unfoldable pub column_name : Char → String → Option (String × String)
unfolding quoted cut
column_name c s = if code c == b'"' then opened (quoted b'"' false s) else cut "[" (String.◌∷◌ c s)

unfoldable pub column_value : (String → Option ℕ) → String → String → Value × String
unfolding word coerce_unquoted
column_value float_of native String.[] = (null, "")
column_value float_of native (String.◌∷◌ c s) =
    if code c == b'\''
    then (text (quoted b'\'' false s).0, (quoted b'\'' false s).1)
    else (coerce_unquoted float_of (word (String.◌∷◌ c s)).0 native, (word (String.◌∷◌ c s)).1)

unfoldable pub scan_columns : (String → Option ℕ) → ℕ → String → Row → Option Row
unfolding skip_spaces column_name bracketed column_value
scan_columns float_of zero s out = none
scan_columns float_of (suc fuel) s out = elim (skip_spaces s) [
  | String.[] ↦ some out
  | String.◌∷◌ c rest ↦ elim (column_name c rest) [
    | none ↦ some out
    | some (name, typed) ↦
        let (native, behind) = bracketed 1 typed in
        let (value, remaining) = column_value float_of native (drop_colon behind) in
        scan_columns float_of fuel remaining (Dict.put name value out)
  ]
]

-- The rounds that always suffice.
abbrev pub scan : (String → Option ℕ) → String → Option Row
scan float_of s = scan_columns float_of (suc (count s)) s []
