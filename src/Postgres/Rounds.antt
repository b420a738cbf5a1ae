-- ===== src/Postgres/Rounds.antt =====
-- The loop of `_scan_columns` ends: each round takes at least one character.
use Prim.Native.Char.{Char, code}
use Prim.Native.String.{count}
use text.Mathlib.TextLemmas.{length-nil, length-cons}
use holypipe.Prelude.{
  ap, ℕ, zero, suc, ◌+◌, ◌-◌, ◌≤◌, ◌<◌, ◌≡◌, refl, String, Bool, true, false, Option, some, inl,
  inr, arith, ◌==◌, Option-cases, if◌then◌else◌,
}
use holypipe.Dict
use holypipe.Connector.{Row}
use holypipe.Text.{String-cases, after, cut}
use holypipe.Postgres.Scan.{
  skip_spaces, quoted, bracketed, word, drop_colon, opened, column_name, column_value, scan_columns,
}

count-skip_spaces-le : (s : String) → count (skip_spaces s) ≤ count s
unfolding skip_spaces
count-skip_spaces-le String.[] = omega arith
count-skip_spaces-le (String.◌∷◌ c s) = ground (arith, count-skip_spaces-le s, length-cons c s)

count-quoted-le : (q : ℕ) (pending : Bool) (s : String) → count (quoted q pending s).1 ≤ count s
unfolding quoted
count-quoted-le q pending String.[] = omega arith
count-quoted-le q true (String.◌∷◌ c s) = ground (arith, count-quoted-le q false s, length-cons c s)
count-quoted-le q false (String.◌∷◌ c s) =
    ground (arith, count-quoted-le q (code c == q) s, length-cons c s)

count-bracketed-le : (depth : ℕ) (s : String) → count (bracketed depth s).1 ≤ count s
unfolding bracketed
count-bracketed-le depth String.[] = omega arith
count-bracketed-le depth (String.◌∷◌ c s) = ground (
  arith,
  count-bracketed-le
      (if code c == b'[' then depth + 1 else if code c == b']' then depth - 1 else depth) s,
  length-cons c s,
)

count-word-le : (s : String) → count (word s).1 ≤ count s
unfolding word
count-word-le String.[] = omega arith
count-word-le (String.◌∷◌ c s) = ground (arith, count-word-le s, length-cons c s)

count-drop_colon-le : (s : String) → count (drop_colon s) ≤ count s
count-drop_colon-le String.[] = omega arith
count-drop_colon-le (String.◌∷◌ c s) = ground (arith, length-cons c s)

count-column_value-le :
    (float_of : String → Option ℕ) (native s : String)
    → count (column_value float_of native s).1 ≤ count s
unfolding column_value
count-column_value-le float_of native String.[] = omega arith
count-column_value-le float_of native (String.◌∷◌ c s) =
    ground (arith, count-quoted-le b'\'' false s, count-word-le (String.◌∷◌ c s), length-cons c s)

count-after : (p s r : String) → after p s ≡ some r → count r + count p ≡ count s
unfolding after
count-after String.[] s r e = ground (arith, length-nil)
count-after (String.◌∷◌ d p) String.[] r e = cc
count-after (String.◌∷◌ d p) (String.◌∷◌ c s) r e =
    ground (arith, count-after p s r, length-cons c s, length-cons d p)

count-cut : (sep s before r : String) → cut sep s ≡ some (before, r) → count r + count sep ≤ count s
unfolding cut
count-cut sep String.[] before r e = elim (Option-cases (after sep "")) [
  | inl missing ↦ absurd (cc (rw (missing, cut) at e))
  | inr (rest, found) ↦ ground (arith, count-after sep "" r, found)
]
count-cut sep (String.◌∷◌ c s) before r e = elim (Option-cases (after sep (String.◌∷◌ c s))) [
  | inr (rest, found) ↦ ground (arith, count-after sep (String.◌∷◌ c s) r, found)
  | inl missing ↦ elim (Option-cases (cut sep s)) [
    | inl never ↦ absurd (ground (arith, missing, never))
    | inr ((b, r'), later) ↦
        ground (arith, count-cut sep s b r' later, length-cons c s, missing, later)
  ]
]

opened-count :
    (p : String × String) (name r : String) → opened p ≡ some (name, r) → count r < count p.1
opened-count (n, String.[]) name r e = cc
opened-count (n, String.◌∷◌ c rest) name r e = ground (arith, length-cons c rest)

count-column_name-le :
    (c : Char) (s name r : String) → column_name c s ≡ some (name, r) → count r ≤ count s
unfolding column_name
count-column_name-le c s name r e = ground (
  arith,
  opened-count (quoted b'"' false s) name r,
  count-quoted-le b'"' false s,
  count-cut "[" (String.◌∷◌ c s) name r,
  length-cons c s,
)

-- The loop ends on every text: with more rounds than the text has characters it returns a row, and
-- still more rounds change nothing.
pub scan_columns_total :
    (float_of : String → Option ℕ) (fuel more : ℕ) (s : String) (out : Row)
    → count s < fuel
    → (row : Row) × (scan_columns float_of fuel s out ≡ some row)
      × (scan_columns float_of (more + fuel) s out ≡ some row)
unfolding scan_columns
scan_columns_total float_of zero more s out h = absurd (omega arith)
scan_columns_total float_of (suc fuel) more s out h =
    let e : more + suc fuel ≡ suc (more + fuel) = omega arith in
    rw e (elim (String-cases (skip_spaces s)) [
      | inl blank ↦ (out, rw (blank, scan_columns) refl, rw (blank, scan_columns) refl)
      | inr (c, rest, begins) ↦ elim (Option-cases (column_name c rest)) [
        | inl broken ↦
            (out, rw (begins, broken, scan_columns) refl, rw (begins, broken, scan_columns) refl)
        | inr ((name, typed), named) ↦
            let (native, behind) = bracketed 1 typed in
            let (value, remaining) = column_value float_of native (drop_colon behind) in
            let shorter : count remaining < fuel = omega (
              arith,
              h,
              count-skip_spaces-le s,
              ap count begins,
              length-cons c rest,
              count-column_name-le c rest name typed named,
              count-bracketed-le 1 typed,
              count-drop_colon-le behind,
              count-column_value-le float_of native (drop_colon behind),
            ) in
            let (row, one, two) =
              scan_columns_total float_of fuel more remaining (Dict.put name value out) shorter in
            (row, rw (begins, named, scan_columns) one, rw (begins, named, scan_columns) two)
      ]
    ])
