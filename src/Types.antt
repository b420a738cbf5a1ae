-- ===== src/Types.antt =====
-- The canonical types of connectors/base.py, over the connectors that map native types to them
-- and back to the types of new columns.
pub mod Discovery
mod Tests
use holypipe.Text.{upper, strip, lower}
use Prim.Native.String.{◌++◌ as text_append}
use holypipe.Prelude.{
  ℕ, zero, suc, ◌+◌, ◌-◌, ◌*◌, ◌/◌, ◌%◌, ◌^◌, ◌≤◌, ◌<◌, ◌≡◌, ◌∙◌, refl, sym, ap, inl, inr, ◌⊎◌, ◌≢◌,
  String, Bool, true, false, not, ◌&&◌, ◌||◌, Option, none, some, List, [], ◌∷◌, ◌++◌, map, arith,
  ltb, leb, ◌==◌, keep, any, all, contains, length, str_eq, eq_iff, Bool-cases, Option-cases, Each,
  In, if◌then◌else◌,
}
use holypipe.Dict
use holypipe.Postgres.Types.{
  canonical as pg_canonical, ddl_types as pg_ddl_types, pg_type_map, by_shape,
}
use holypipe.Mysql.Types.{
  until_bracket, or_string, canonical as mysql_canonical, ddl_types as mysql_ddl_types,
  mysql_type_map, of_base,
}
use holypipe.Sqlite.Types.{canonical as sqlite_canonical, by_part}
use holypipe.Sqlite.Setup.{ddl_types as sqlite_ddl_types}
use holypipe.Dict.{Dict}

abbrev pub canonical_types : List String
canonical_types =
    "string" ∷ "integer" ∷ "number" ∷ "boolean" ∷ "timestamp" ∷ "date" ∷ "time" ∷ "json" ∷ "binary"
    ∷ []

-- `canonical_types` has it, and each DDL_TYPES a type for a column of it.
pub record IsSupported (type : String) : Type 0 where
  pub listed : contains canonical_types type ≡ true
  pub postgres : (ddl : String) × (Dict.get type pg_ddl_types ≡ some ddl)
  pub mysql : (ddl : String) × (Dict.get type mysql_ddl_types ≡ some ddl)
  pub sqlite : (ddl : String) × (Dict.get type sqlite_ddl_types ≡ some ddl)

get-all :
    (p : String → Bool) (k v : String) (d : Dict String)
    → all (λ (entry : String × String). p entry.1) d ≡ true
    → Dict.get k d ≡ some v
    → p v ≡ true
get-all p k v [] h e = cc
get-all p k v ((j, w) ∷ d) h e = ground (arith, get-all p k v d)

get-contains :
    (k : String) (d : Dict String)
    → contains (Dict.keys d) k ≡ true
    → (v : String) × (Dict.get k d ≡ some v)
get-contains k [] h = cc
get-contains k ((j, w) ∷ d) h = elim (Bool-cases (str_eq j k)) [
  | inl here ↦ (w, rw here refl)
  | inr other ↦ rw other (get-contains k d (ground (arith, eq_iff j k)))
]

contains-IsSupported : (type : String) → contains canonical_types type ≡ true → IsSupported type
contains-IsSupported type h = record {
  listed = h;
  postgres = get-contains type pg_ddl_types h;
  mysql = get-contains type mysql_ddl_types h;
  sqlite = get-contains type sqlite_ddl_types h;
}

if_IsSupported :
    {x y : String} (b : Bool) → IsSupported x → IsSupported y → IsSupported (if b then x else y)
if_IsSupported true left right = left
if_IsSupported false left right = right

-- What a map of native types holds.
get-IsSupported :
    (native type : String) (types : Dict String)
    → all (λ (entry : String × String). contains canonical_types entry.1) types ≡ true
    → Dict.get native types ≡ some type
    → IsSupported type
get-IsSupported native type types checked e =
    contains-IsSupported type (get-all (contains canonical_types) native type types checked e)

by_shape-IsSupported : (native : String) → IsSupported (by_shape native)
unfolding by_shape
by_shape-IsSupported native =
    let supported = contains-IsSupported in
    if_IsSupported _ (supported "string" refl) (
      if_IsSupported _ (supported "timestamp" refl) (
        if_IsSupported _ (supported "time" refl) (
          if_IsSupported _ (supported "integer" refl) (
            if_IsSupported _ (supported "number" refl)
              (if_IsSupported _ (supported "json" refl) (supported "string" refl))))))

pg_canonical-IsSupported : (native : String) → IsSupported (pg_canonical native)
unfolding pg_canonical
pg_canonical-IsSupported native = elim (Option-cases (Dict.get (lower native) pg_type_map)) [
  | inl missing ↦ rw (missing, pg_canonical) (by_shape-IsSupported (lower native))
  | inr (type, found) ↦
      rw (found, pg_canonical) (get-IsSupported (lower native) type pg_type_map refl found)
]

of_base-IsSupported : (base : String) → IsSupported (of_base base)
unfolding of_base
of_base-IsSupported base =
    if_IsSupported {y = or_string (Dict.get base mysql_type_map)} _
      (contains-IsSupported "boolean" refl)
      (elim (Option-cases (Dict.get base mysql_type_map)) [
        | inl missing ↦ rw missing (contains-IsSupported "string" refl)
        | inr (type, found) ↦ rw found (get-IsSupported base type mysql_type_map refl found)
      ])

by_part-IsSupported : (native : String) → IsSupported (by_part native)
unfolding by_part
by_part-IsSupported native =
    let supported = contains-IsSupported in
    if_IsSupported _ (supported "integer" refl) (
      if_IsSupported _ (supported "number" refl) (
        if_IsSupported _ (supported "boolean" refl) (
          if_IsSupported _ (supported "binary" refl) (
            if_IsSupported _ (supported "timestamp" refl) (
              if_IsSupported _ (supported "date" refl)
                (if_IsSupported _ (supported "json" refl) (supported "string" refl)))))))

-- Whatever native type a source of any of the three kinds reports, the canonical type that it is
-- mapped to is one of `CANONICAL_TYPES`, and the table of types for new columns of each of the
-- three destinations has an entry for it.
pub canonical-IsSupported :
    (native : String)
    → IsSupported (pg_canonical native)
      × IsSupported (mysql_canonical native)
      × IsSupported (sqlite_canonical native)
unfolding mysql_canonical sqlite_canonical
canonical-IsSupported native = (
  pg_canonical-IsSupported native,
  of_base-IsSupported (lower (strip (until_bracket native))),
  by_part-IsSupported (upper native),
)
