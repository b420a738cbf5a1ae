-- ===== src/Postgres/RoundTrip.antt =====
-- The scanner reads back what test_decoding prints.
use Prim.Native.Char.{Char, code}
use Prim.Native.String.{count}
use package.text.Mathlib.TextLemmas.{length-nil, length-cons}
use holypipe.Prelude.{
  ◌&&◌, leb, ◌||◌, Each, ℕ, zero, suc, ◌+◌, ◌-◌, ◌≤◌, ◌<◌, ◌≡◌, ◌∙◌, refl, ap, String, Bool, true,
  false, Option, some, List, [], ◌∷◌, inl, inr, arith, ◌==◌, length, Bool-cases,
}
use holypipe.Dict
use holypipe.Models.{text}
use holypipe.Connector.{Row}
use holypipe.Text.{is_space, cut}
use holypipe.Postgres.Scan.{
  skip_spaces, quoted, bracketed, word, opened, column_name, column_value, scan_columns, scan,
}
use holypipe.Postgres.Print.{
  before, escaped, parted, double_quote, single_quote, bare, balanced, Shown, literal, plain, Field,
  print_name, print_value, all_name, needs_quotes, print_field, print_columns, is_shown, IsField,
  value_of, row_of,
}

quoted-escaped :
    (q : Char) (s k : String)
    → (code q == b' ') ≡ false
    → quoted (code q) true k ≡ ("", k)
    → quoted (code q) false (escaped q s k) ≡ (s, k)
unfolding quoted
quoted-escaped q String.[] k no_space ends = ground (arith, ends)
quoted-escaped q (String.◌∷◌ c s) k no_space ends = elim (Bool-cases (code c == code q)) [
  | inl same ↦ ground (arith, quoted-escaped q s k)
  | inr other ↦ ground (arith, quoted-escaped q s k)
]

quoted-parted :
    (q : ℕ) (k : String) → (q == b' ') ≡ false → parted k ≡ true → quoted q true k ≡ ("", k)
unfolding quoted
quoted-parted q String.[] no_space h = refl
quoted-parted q (String.◌∷◌ c k) no_space h = ground arith

word-before : (s k : String) → bare s ≡ true → parted k ≡ true → word (before s k) ≡ (s, k)
unfolding word
word-before String.[] String.[] h e = refl
word-before String.[] (String.◌∷◌ c k) h e = ground arith
word-before (String.◌∷◌ c s) k h e = ground (arith, word-before s k)

bracketed-before :
    (depth : ℕ) (native : String) (k : String)
    → balanced depth native ≡ true
    → bracketed (suc depth) (before native (String.◌∷◌ "]" k)) ≡ (native, k)
unfolding bracketed
bracketed-before depth String.[] k h = ground arith
bracketed-before depth (String.◌∷◌ c native) k h = elim (Bool-cases (code c == b'[')) [
  | inl open_one ↦ ground (arith, bracketed-before (depth + 1) native k)
  | inr other ↦ elim (Bool-cases (code c == b']')) [
    | inl close_one ↦ ground (arith, bracketed-before (depth - 1) native k)
    | inr neither ↦ ground (arith, bracketed-before depth native k)
  ]
]

column_value-print :
    (float_of : String → Option ℕ) (name native : String) (shown : Shown) (k : String)
    → is_shown shown ≡ true
    → parted k ≡ true
    → column_value float_of native (print_value shown k) ≡ (
      value_of float_of
          (record { name = name; is_keyword = false; native = native; shown = shown }),
      k,
    )
unfolding column_value
column_value-print float_of name native (literal s) k h e =
    rw (quoted-escaped single_quote s k refl (quoted-parted b'\'' k refl e)) refl
column_value-print float_of name native (plain String.[]) k h e = cc
column_value-print float_of name native (plain (String.◌∷◌ c s)) k h e =
    ground (arith, word-before (String.◌∷◌ c s) k)

cut-before :
    (s k : String) → all_name s ≡ true → cut "[" (before s (String.◌∷◌ "[" k)) ≡ some (s, k)
unfolding cut
cut-before String.[] k h = refl
cut-before (String.◌∷◌ c s) k h = elim (Bool-cases (code c == b'[')) [
  | inl bracket ↦ absurd (ground arith)
  | inr other ↦ ground (arith, cut-before s k)
]

skip_spaces-cons :
    (c : Char) (s : String)
    → (code c == b' ') ≡ false
    → skip_spaces (String.◌∷◌ c s) ≡ String.◌∷◌ c s
unfolding skip_spaces
skip_spaces-cons c s h = ground arith

-- A printed name begins with no space, and is read up to its bracket.
pub record Begins (name k s : String) : Type 0 where
  pub first : Char
  pub rest : String
  pub splits : s ≡ String.◌∷◌ first rest
  pub no_space : (code first == b' ') ≡ false
  pub solid_start : is_space (code first) ≡ false
  pub named : column_name first rest ≡ some (name, k)

print_name-quoted : (name k : String) → Begins name k (print_name name true (String.◌∷◌ "[" k))
unfolding column_name
print_name-quoted name k = record {
  first = double_quote;
  rest = escaped double_quote name (String.◌∷◌ "[" k);
  splits = refl;
  no_space = refl;
  solid_start = refl;
  named = ap opened (quoted-escaped double_quote name (String.◌∷◌ "[" k) refl refl);
}

print_name-Begins :
    (name k : String) → Begins name k (print_name name (needs_quotes name) (String.◌∷◌ "[" k))
unfolding column_name
print_name-Begins String.[] k = print_name-quoted "" k
print_name-Begins (String.◌∷◌ c s) k = elim (Bool-cases (all_name (String.◌∷◌ c s))) [
  | inr special ↦ rw special (print_name-quoted (String.◌∷◌ c s) k)
  | inl simple ↦ elim (Bool-cases (leb b'0' (code c) && leb (code c) b'9')) [
    | inl digit ↦ rw (simple, digit) (print_name-quoted (String.◌∷◌ c s) k)
    | inr letter ↦
        rw (simple, letter)
          (record {
            first = c;
            rest = before s (String.◌∷◌ "[" k);
            splits = refl;
            no_space = ground arith;
            solid_start = ground arith;
            named =
                let not_quote : (code c == b'"') ≡ false = ground arith in
                rw not_quote (cut-before (String.◌∷◌ c s) k simple);
          })
  ]
]

-- The name of a field, a keyword or not.
field_name-Begins :
    (f : Field) (k : String)
    → Begins f.name k (print_name f.name (f.is_keyword || needs_quotes f.name) (String.◌∷◌ "[" k))
field_name-Begins f k = elim (Bool-cases f.is_keyword) [
  | inl keyword ↦ rw keyword (print_name-quoted f.name k)
  | inr other ↦ rw other (print_name-Begins f.name k)
]

parted-print : (fs : List Field) → parted (print_columns fs) ≡ true
unfolding print_columns
parted-print [] = refl
parted-print (f ∷ fs) = refl

pub scan_columns-print_columns :
    (float_of : String → Option ℕ) (fuel : ℕ) (fs : List Field) (out : Row)
    → length fs < fuel
    → Each IsField fs
    → scan_columns float_of fuel (print_columns fs) out ≡ some (row_of float_of fs out)
unfolding scan_columns print_columns row_of
scan_columns-print_columns float_of zero fs out h valid = absurd (omega arith)
scan_columns-print_columns float_of (suc fuel) [] out h valid = refl
scan_columns-print_columns float_of (suc fuel) (f ∷ fs) out h (valid, valids) =
    let k = print_value f.shown (print_columns fs) in
    let typed = before f.native (String.◌∷◌ "]" (String.◌∷◌ ":" k)) in
    let begins = field_name-Begins f typed in
    let skipped : skip_spaces (print_columns (f ∷ fs)) ≡ String.◌∷◌ begins.first begins.rest =
      ap skip_spaces begins.splits ∙ skip_spaces-cons begins.first begins.rest begins.no_space in
    let native = bracketed-before 0 f.native (String.◌∷◌ ":" k) valid.0 in
    let value =
      column_value-print float_of f.name f.native f.shown (print_columns fs) valid.1
        (parted-print fs) in
    let ih =
      scan_columns-print_columns float_of fuel fs (Dict.put f.name (value_of float_of f) out)
        (omega arith) valids in
    rw (skipped, begins.named, native, value, scan_columns) ih

count-before : (s k : String) → count k ≤ count (before s k)
count-before String.[] k = omega arith
count-before (String.◌∷◌ c s) k = omega (arith, count-before s k, length-cons c (before s k))

count-escaped : (q : Char) (s k : String) → count k ≤ count (escaped q s k)
count-escaped q String.[] k = omega (arith, length-cons q k)
count-escaped q (String.◌∷◌ c s) k = ground (
  arith,
  count-escaped q s k,
  length-cons c (escaped q s k),
  length-cons c (String.◌∷◌ c (escaped q s k)),
)

count-print_name : (name k : String) (quote : Bool) → count k ≤ count (print_name name quote k)
count-print_name name k false = count-before name k
count-print_name name k true = omega (
  arith,
  count-escaped double_quote name k,
  length-cons double_quote (escaped double_quote name k),
)

count-print_value : (shown : Shown) (k : String) → count k ≤ count (print_value shown k)
count-print_value (plain s) k = count-before s k
count-print_value (literal s) k =
    omega
      (arith, count-escaped single_quote s k, length-cons single_quote (escaped single_quote s k))

pub count-print_field : (f : Field) (k : String) → count k < count (print_field f k)
count-print_field f k =
    let value = print_value f.shown k in
    let typed = before f.native (String.◌∷◌ "]" (String.◌∷◌ ":" value)) in
    omega (
      arith,
      count-print_value f.shown k,
      length-cons ":" value,
      length-cons "]" (String.◌∷◌ ":" value),
      count-before f.native (String.◌∷◌ "]" (String.◌∷◌ ":" value)),
      length-cons "[" typed,
      count-print_name f.name (String.◌∷◌ "[" typed) (f.is_keyword || needs_quotes f.name),
    )

pub length-print_columns : (fs : List Field) → length fs ≤ count (print_columns fs)
unfolding print_columns
length-print_columns [] = omega (arith, length-nil)
length-print_columns (f ∷ fs) = omega (
  arith,
  length-print_columns fs,
  count-print_field f (print_columns fs),
  length-cons " " (print_field f (print_columns fs)),
)

-- The scanner returns the columns that test_decoding printed, in their order: names and literals
-- with any characters in them, quotes included, and bare words as `_coerce_unquoted` reads them.
pub scan-print_columns :
    (float_of : String → Option ℕ) (fs : List Field)
    → Each IsField fs
    → scan float_of (print_columns fs) ≡ some (row_of float_of fs [])
scan-print_columns float_of fs valid =
    scan_columns-print_columns float_of (suc (count (print_columns fs))) fs []
      (omega (arith, length-print_columns fs)) valid
