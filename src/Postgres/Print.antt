-- ===== src/Postgres/Print.antt =====
-- What test_decoding prints of a row: a name, quoted where it must be, a native type with balanced
-- brackets, and a value as a literal or as a bare word.
use Prim.Native.Char.{Char, code}
use holypipe.Prelude.{
  ℕ, ◌+◌, ◌-◌, ◌≡◌, String, Bool, true, false, not, ◌&&◌, ◌||◌, Option, List, [], ◌∷◌, ◌==◌, leb,
  if◌then◌else◌,
}
use holypipe.Dict
use holypipe.Models.{Value, text}
use holypipe.Connector.{Row}
use holypipe.Postgres.Scan.{coerce_unquoted}

-- A text before what follows it.
abbrev pub before : String → String → String
before String.[] k = k
before (String.◌∷◌ c s) k = String.◌∷◌ c (before s k)

-- A text with each quote doubled, before the closing quote and what follows.
abbrev pub escaped : Char → String → String → String
escaped q String.[] k = String.◌∷◌ q k
escaped q (String.◌∷◌ c s) k =
    let rest = escaped q s k in
    if code c == code q then String.◌∷◌ c (String.◌∷◌ c rest) else String.◌∷◌ c rest

-- What follows a column: nothing, or a space.
abbrev pub parted : String → Bool
parted String.[] = true
parted (String.◌∷◌ c s) = code c == b' '

abbrev pub double_quote : Char
double_quote = "\""

abbrev pub single_quote : Char
single_quote = "'"

-- The characters of a word that is printed bare.
abbrev pub bare : String → Bool
bare String.[] = true
bare (String.◌∷◌ c s) = not (code c == b' ') && bare s

-- Brackets that close in their order, from a depth.
abbrev pub balanced : ℕ → String → Bool
balanced depth String.[] = depth == 0
balanced depth (String.◌∷◌ c s) =
    let rest =
      balanced (if code c == b'[' then depth + 1 else if code c == b']' then depth - 1 else depth)
        s in
    not (code c == b']' && depth == 0) && rest

-- A value as it is printed: a literal, or a word that is neither empty nor quoted.
pub data Shown : Type 0 where
  literal plain : String → Shown

-- Whether the name is a keyword is PostgreSQL's affair.
pub record Field : Type 0 where
  pub name : String
  pub is_keyword : Bool
  pub native : String
  pub shown : Shown

abbrev pub print_name : String → Bool → String → String
print_name name true k = String.◌∷◌ double_quote (escaped double_quote name k)
print_name name false k = before name k

abbrev pub print_value : Shown → String → String
print_value (literal s) k = String.◌∷◌ single_quote (escaped single_quote s k)
print_value (plain s) k = before s k

-- The names that need no quotes: a letter of the lower case or `_` first, then also digits. PostgreSQL
-- quotes its keywords too.
abbrev pub is_name : ℕ → Bool
is_name c = (leb b'a' c && leb c b'z') || c == b'_' || (leb b'0' c && leb c b'9')

abbrev pub all_name : String → Bool
all_name String.[] = true
all_name (String.◌∷◌ c s) = is_name (code c) && all_name s

abbrev pub needs_quotes : String → Bool
needs_quotes String.[] = true
needs_quotes (String.◌∷◌ c s) =
    not (all_name (String.◌∷◌ c s)) || (leb b'0' (code c) && leb (code c) b'9')

abbrev pub print_field : Field → String → String
print_field f k =
    print_name f.name (f.is_keyword || needs_quotes f.name)
      (String.◌∷◌ "[" (before f.native (String.◌∷◌ "]" (String.◌∷◌ ":" (print_value f.shown k)))))

-- Each column behind a space.
unfoldable pub print_columns : List Field → String
print_columns [] = ""
print_columns (f ∷ fs) = String.◌∷◌ " " (print_field f (print_columns fs))

-- A bare word as a value: not empty, no quote first, no space.
abbrev pub is_word : String → Bool
is_word String.[] = false
is_word (String.◌∷◌ c s) = not (code c == b'\'') && bare (String.◌∷◌ c s)

abbrev pub is_shown : Shown → Bool
is_shown (literal s) = true
is_shown (plain s) = is_word s

abbrev pub IsField : Field → Type 0
IsField f = (balanced 0 f.native ≡ true) × (is_shown f.shown ≡ true)

-- What a field stands for.
abbrev pub value_of : (String → Option ℕ) → Field → Value
value_of float_of f = elim f.shown [
  | literal s ↦ text s
  | plain s ↦ coerce_unquoted float_of s f.native
]

unfoldable pub row_of : (String → Option ℕ) → List Field → Row → Row
row_of float_of [] out = out
row_of float_of (f ∷ fs) out = row_of float_of fs (Dict.put f.name (value_of float_of f) out)
