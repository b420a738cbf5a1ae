-- ===== src/Text.antt =====
-- Python's operations on texts that several parts use: `strip`, `lstrip`, `splitlines`, `partition`
-- at the first occurrence of a separator, `startswith`.
use Prim.Native.Char.{Char, code}
use Prim.Native.String.{◌++◌ as text_append}
use Prim.Native.String.{count}
use holypipe.Prelude.{
  inr, inl, ◌⊎◌, ℕ, zero, suc, ◌-◌, ◌≡◌, refl, String, Bool, false, ◌&&◌, ◌||◌, Option, none, some,
  List, [], ◌∷◌, leb, ◌==◌, str_eq, if◌then◌else◌,
}

-- `str.isspace` of a character.
abbrev pub is_space : ℕ → Bool
is_space c =
    (leb 9 c && leb c 13)
    || (leb 28 c && leb c 32)
    || c == 133
    || c == 160
    || c == 5760
    || (leb 8192 c && leb c 8202)
    || c == 8232
    || c == 8233
    || c == 8239
    || c == 8287
    || c == 12288

unfoldable pub lstrip : String → String
lstrip String.[] = ""
lstrip (String.◌∷◌ c s) = let rest = lstrip s in if is_space (code c) then rest else String.◌∷◌ c s

unfoldable pub rstrip : String → String
rstrip String.[] = ""
rstrip (String.◌∷◌ c s) =
    let rest = rstrip s in if is_space (code c) && str_eq rest "" then "" else String.◌∷◌ c rest

unfoldable pub strip : String → String
unfolding lstrip rstrip
strip s = rstrip (lstrip s)

-- What follows a prefix.
unfoldable pub after : String → String → Option String
after String.[] s = some s
after (String.◌∷◌ p ps) String.[] = none
after (String.◌∷◌ p ps) (String.◌∷◌ c s) =
    let rest = after ps s in if code c == code p then rest else none

abbrev pub onward : Char → Option (String × String) → Option (String × String)
onward c none = none
onward c (some (before, behind)) = some (String.◌∷◌ c before, behind)

-- The parts before and behind the first occurrence of a separator.
unfoldable pub cut : String → String → Option (String × String)
unfolding after
cut sep String.[] = elim (after sep "") [ none ↦ none | some rest ↦ some ("", rest) ]
cut sep (String.◌∷◌ c s) = elim (after sep (String.◌∷◌ c s)) [
  | some rest ↦ some ("", rest)
  | none ↦ onward c (cut sep s)
]

-- The ends of a line of `splitlines`; a "\n" behind a "\r" belongs to it.
abbrev pub is_end : ℕ → Bool
is_end c = (leb 10 c && leb c 13) || (leb 28 c && leb c 30) || c == 133 || c == 8232 || c == 8233

-- A character put before the first line.
abbrev before_first : Char → List String → List String
before_first c [] = String.◌∷◌ c "" ∷ []
before_first c (line ∷ lines) = String.◌∷◌ c line ∷ lines

-- The flag says that the character before was a "\r".
unfoldable pub lines_from : Bool → String → List String
lines_from cr String.[] = []
lines_from cr (String.◌∷◌ c s) =
    let rest = lines_from (code c == 13) s in
    if cr && code c == 10 then rest else if is_end (code c) then "" ∷ rest else before_first c rest

unfoldable pub splitlines : String → List String
unfolding lines_from
splitlines s = lines_from false s

-- `s.replace(c, "")` for one character.
unfoldable pub without_char : ℕ → String → String
without_char c String.[] = ""
without_char c (String.◌∷◌ d s) =
    let rest = without_char c s in if code d == c then rest else String.◌∷◌ d rest

-- `s.lower()`, for the ASCII letters: the letter that stands where the given one does.
unfoldable pub lower_in : Char → String → String → Char
lower_in c String.[] ls = c
lower_in c (String.◌∷◌ u us) String.[] = c
lower_in c (String.◌∷◌ u us) (String.◌∷◌ l ls) =
    let rest = lower_in c us ls in if code c == code u then l else rest

unfoldable pub lower : String → String
unfolding lower_in
lower String.[] = ""
lower (String.◌∷◌ c s) =
    String.◌∷◌ (lower_in c "ABCDEFGHIJKLMNOPQRSTUVWXYZ" "abcdefghijklmnopqrstuvwxyz") (lower s)

-- `s.upper()`, likewise.
unfoldable pub upper : String → String
unfolding lower_in
upper String.[] = ""
upper (String.◌∷◌ c s) =
    String.◌∷◌ (lower_in c "abcdefghijklmnopqrstuvwxyz" "ABCDEFGHIJKLMNOPQRSTUVWXYZ") (upper s)

-- `sep.join(...)`
unfoldable pub join : String → List String → String
join sep [] = ""
join sep (s ∷ []) = s
join sep (s ∷ t ∷ ts) = text_append s (text_append sep (join sep (t ∷ ts)))

abbrev pub concat : List String → String
concat [] = ""
concat (s ∷ ss) = text_append s (concat ss)

-- `s.replace(old, new)`, for a text `old` that is not empty; the number is what is left of an
-- occurrence.
unfoldable pub replace_from : ℕ → String → String → String → String
unfolding after
replace_from n old new String.[] = ""
replace_from (suc n) old new (String.◌∷◌ c s) = replace_from n old new s
replace_from zero old new (String.◌∷◌ c s) = elim (after old (String.◌∷◌ c s)) [
  | some rest ↦ text_append new (replace_from (count old - 1) old new s)
  | none ↦ String.◌∷◌ c (replace_from zero old new s)
]

unfoldable pub replace : String → String → String → String
unfolding replace_from
replace old new s = replace_from zero old new s

replace-all_of : replace "`a` TEXT" "`a` INT" "x `a` TEXT`a` TEXT" ≡ "x `a` INT`a` INT"
unfolding replace
replace-all_of = refl

splitlines-crlf : splitlines "a\r\nbc\n\nd" ≡ "a" ∷ "bc" ∷ "" ∷ "d" ∷ []
unfolding splitlines
splitlines-crlf = refl

cut-relation : cut ": " "public.t: INSERT: x" ≡ some ("public.t", "INSERT: x")
unfolding cut
cut-relation = refl

strip-ends : strip " a b\n " ≡ "a b"
unfolding strip
strip-ends = refl

pub String-cases :
    (s : String) → (s ≡ String.[]) ⊎ (c : Char) × (rest : String) × (s ≡ String.◌∷◌ c rest)
String-cases String.[] = inl refl
String-cases (String.◌∷◌ c rest) = inr (c, rest, refl)
