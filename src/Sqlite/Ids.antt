-- ===== src/Sqlite/Ids.antt =====
-- The ids of the journal go up: what the loop reads, and what it leaves.
use holypipe.Models.{StreamSchema}
use holypipe.Connector.{Row}
use holypipe.Sqlite.Journal.{change_event, tables, JournalRow, Poller, above, batch_of, last_of}
use holypipe.Prelude.{
  drop, take, ℕ, zero, suc, ◌≤◌, ◌<◌, ◌≡◌, refl, ap, inl, inr, String, true, false, List, [], ◌∷◌,
  ◌++◌, arith, ltb, contains, Bool-cases,
}

-- Ids go up, from a bound and below another.
unfoldable pub Ascends : ℕ → List JournalRow → ℕ → Type 0
Ascends low [] next = low < next
Ascends low (e ∷ entries) next = (low < e.id) × Ascends e.id entries next

pub record IsLog (s : Poller) : Type 0 where
  pub ordered : Ascends 0 s.journal s.next_id
  pub before : s.last_id < s.next_id

pub Ascends-lower :
    (less low : ℕ) (entries : List JournalRow) (next : ℕ)
    → less ≤ low
    → Ascends low entries next
    → Ascends less entries next
unfolding Ascends
Ascends-lower less low [] next h a = omega (arith, h, a)
Ascends-lower less low (e ∷ entries) next h (lt, a) = (omega (arith, h, lt), a)

pub Ascends-append :
    (low : ℕ) (entries : List JournalRow) (e : JournalRow) (next : ℕ)
    → e.id ≡ next
    → Ascends low entries next
    → Ascends low (entries ++ e ∷ []) (suc next)
unfolding Ascends
Ascends-append low [] e next same a = (omega (arith, same, a), omega (arith, same))
Ascends-append low (f ∷ entries) e next same (lt, a) =
    (lt, Ascends-append f.id entries e next same a)

pub above-all :
    (id low : ℕ) (entries : List JournalRow) (next : ℕ)
    → id ≤ low
    → Ascends low entries next
    → above id entries ≡ entries
unfolding above Ascends
above-all id low [] next h a = refl
above-all id low (e ∷ entries) next h (lt, a) =
    let over : ltb id e.id ≡ true = ground (arith, h, lt) in
    rw over (ap (λ t. e ∷ t) (above-all id e.id entries next (omega (arith, h, lt)) a))

pub Ascends-above :
    (id low : ℕ) (entries : List JournalRow) (next : ℕ)
    → id < next
    → Ascends low entries next
    → Ascends id (above id entries) next
unfolding above Ascends
Ascends-above id low [] next h a = h
Ascends-above id low (e ∷ entries) next h (lt, a) = elim (Bool-cases (ltb id e.id)) [
  | inl over ↦
      let rest = above-all id e.id entries next (ground (arith, over)) a in
      rw (over, rest) (ground (arith, over), a)
  | inr under ↦ rw under (Ascends-above id e.id entries next h a)
]

pub last_of-take-ge :
    (n low : ℕ) (entries : List JournalRow) (next : ℕ)
    → Ascends low entries next
    → (low ≤ last_of low (take n entries)) × (last_of low (take n entries) < next)
unfolding last_of Ascends
last_of-take-ge zero low [] next a = (omega arith, a)
last_of-take-ge zero low (e ∷ entries) next (lt, a) =
    let (up, below) = last_of-take-ge zero e.id entries next a in
    (omega arith, omega (arith, lt, up, below))
last_of-take-ge (suc n) low [] next a = (omega arith, a)
last_of-take-ge (suc n) low (e ∷ entries) next (lt, a) =
    let (up, below) = last_of-take-ge n e.id entries next a in (omega (arith, lt, up), below)

pub above-last_of :
    (n low : ℕ) (entries : List JournalRow) (next : ℕ)
    → Ascends low entries next
    → above (last_of low (take n entries)) entries ≡ drop n entries
unfolding above last_of Ascends
above-last_of zero low entries next a = above-all low low entries next (omega arith) a
above-last_of (suc n) low [] next a = refl
above-last_of (suc n) low (e ∷ entries) next (lt, a) =
    let (up, below) = last_of-take-ge n e.id entries next a in
    let under : ltb (last_of e.id (take n entries)) e.id ≡ false = ground (arith, up) in
    rw under (above-last_of n e.id entries next a)

pub above-above :
    (more id : ℕ) (entries : List JournalRow)
    → id ≤ more
    → above more (above id entries) ≡ above more entries
unfolding above
above-above more id [] h = refl
above-above more id (e ∷ entries) h = ground (arith, above-above more id entries h)

pub above-append :
    (id : ℕ) (xs ys : List JournalRow) → above id (xs ++ ys) ≡ above id xs ++ above id ys
unfolding above
above-append id [] ys = refl
above-append id (x ∷ xs) ys = ground (arith, above-append id xs ys)

pub batch_of-append :
    (decode : String → Row) (streams : List StreamSchema) (xs ys : List JournalRow)
    → batch_of decode streams (xs ++ ys) ≡ batch_of decode streams xs ++ batch_of decode streams ys
unfolding batch_of
batch_of-append decode streams [] ys = refl
batch_of-append decode streams (x ∷ xs) ys =
    elim (Bool-cases (contains (tables streams) x.table_name)) [
      | inl wanted ↦ rw wanted (
          ap (λ t. change_event decode streams x.table_name x.op x.row_json ∷ t)
            (batch_of-append decode streams xs ys))
      | inr other ↦ rw other (batch_of-append decode streams xs ys)
    ]

pub take-drop : (n : ℕ) (xs : List JournalRow) → take n xs ++ drop n xs ≡ xs
take-drop zero xs = refl
take-drop (suc n) [] = refl
take-drop (suc n) (x ∷ xs) = ap (λ t. x ∷ t) (take-drop n xs)
