-- ===== src/Cdc/Groups.antt =====
-- The events of a batch by stream, as `_apply_batch` groups them in a dict.
use mathlib.Core.Path.{ap₂}
use mathlib.Core.List.{append_assoc, append-nil}
use holypipe.Dict
use holypipe.Dict.{Dict}
use holypipe.Connector.{ChangeEvent}
use holypipe.Cdc.{append_event, group}
use holypipe.Prelude.{
  ◌≡◌, ◌∙◌, refl, sym, ap, inl, inr, String, Bool, true, false, ◌||◌, none, some, List, [], ◌∷◌,
  ◌++◌, map, keep, contains, str_eq, str_eq_refl, eq_iff, arith, Bool-cases, if◌then◌else◌,
}

abbrev is_of : String → ChangeEvent → Bool
is_of name ev = str_eq ev.stream name

abbrev and_name : List String → String → List String
and_name names name = if contains names name then names else names ++ name ∷ []

-- The streams in the order of their first events, behind those that are known.
abbrev names_of : List String → List ChangeEvent → List String
names_of names [] = names
names_of names (ev ∷ events) = names_of (and_name names ev.stream) events

abbrev events_of : List ChangeEvent → String → String × List ChangeEvent
events_of events name = (name, keep (is_of name) events)

abbrev dict_of : List String → List ChangeEvent → Dict (List ChangeEvent)
dict_of names events = map (events_of events) names

-- Each stream with its events in their order.
abbrev pub by_stream : List ChangeEvent → Dict (List ChangeEvent)
by_stream events = dict_of (names_of [] events) events

keep-append :
    (p : ChangeEvent → Bool) (xs ys : List ChangeEvent) → keep p (xs ++ ys) ≡ keep p xs ++ keep p ys
keep-append p [] ys = refl
keep-append p (x ∷ xs) ys = ground (arith, keep-append p xs ys)

get-dict_of :
    (name : String) (names : List String) (past : List ChangeEvent)
    → Dict.get name (dict_of names past)
      ≡ (if contains names name then some (keep (is_of name) past) else none)
get-dict_of name [] past = refl
get-dict_of name (n ∷ names) past = ground (arith, eq_iff n name, get-dict_of name names past)

-- An event adds nothing to the other streams.
keep_other :
    (name : String) (past : List ChangeEvent) (ev : ChangeEvent)
    → str_eq ev.stream name ≡ false
    → keep (is_of name) (past ++ ev ∷ []) ≡ keep (is_of name) past
keep_other name past ev h =
    keep-append (is_of name) past (ev ∷ []) ∙ rw h (append-nil (keep (is_of name) past))

keep_own :
    (past : List ChangeEvent) (ev : ChangeEvent)
    → keep (is_of ev.stream) (past ++ ev ∷ []) ≡ keep (is_of ev.stream) past ++ ev ∷ []
keep_own past ev = keep-append (is_of ev.stream) past (ev ∷ []) ∙ rw (str_eq_refl ev.stream) refl

dict_of_other :
    (names : List String) (past : List ChangeEvent) (ev : ChangeEvent)
    → contains names ev.stream ≡ false
    → dict_of names (past ++ ev ∷ []) ≡ dict_of names past
dict_of_other [] past ev h = refl
dict_of_other (n ∷ names) past ev h =
    let other : str_eq ev.stream n ≡ false =
      ground (arith, h, eq_iff n ev.stream, eq_iff ev.stream n) in
    let rest : contains names ev.stream ≡ false = ground (arith, h) in
    ap₂ (λ l d. (n, l) ∷ d) (keep_other n past ev other) (dict_of_other names past ev rest)

-- No name stands twice.
AreDistinct : List String → Type 0
AreDistinct [] = Unit
AreDistinct (n ∷ names) = (contains names n ≡ false) × AreDistinct names

put_known :
    (names : List String) (past : List ChangeEvent) (ev : ChangeEvent)
    → AreDistinct names
    → contains names ev.stream ≡ true
    → Dict.put ev.stream (keep (is_of ev.stream) past ++ ev ∷ []) (dict_of names past)
      ≡ dict_of names (past ++ ev ∷ [])
unfolding AreDistinct
put_known [] past ev d h = cc
put_known (n ∷ names) past ev d h = elim (Bool-cases (str_eq n ev.stream)) [
  | inl same ↦
      let e : n ≡ ev.stream = (eq_iff n ev.stream).0 same in
      let absent : contains names ev.stream ≡ false = ap (contains names) (sym e) ∙ d.0 in
      rw same (
        ap₂ (λ l r. (n, l) ∷ r)
          (sym (keep_own past ev) ∙ ap (λ x. keep (is_of x) (past ++ ev ∷ [])) (sym e))
          (sym (dict_of_other names past ev absent)))
  | inr apart ↦
      let other : str_eq ev.stream n ≡ false =
        ground (arith, apart, eq_iff n ev.stream, eq_iff ev.stream n) in
      let there : contains names ev.stream ≡ true = ground (arith, h, apart) in
      rw apart (
        ap₂ (λ l r. (n, l) ∷ r) (sym (keep_other n past ev other))
          (put_known names past ev d.1 there))
]

put_new :
    (names : List String) (past : List ChangeEvent) (ev : ChangeEvent)
    → contains names ev.stream ≡ false
    → keep (is_of ev.stream) past ≡ []
    → Dict.put ev.stream (ev ∷ []) (dict_of names past)
      ≡ dict_of (names ++ ev.stream ∷ []) (past ++ ev ∷ [])
put_new [] past ev h clear =
    ap (λ l. (ev.stream, l) ∷ []) (sym (keep_own past ev ∙ ap (λ l. l ++ ev ∷ []) clear))
put_new (n ∷ names) past ev h clear =
    let apart : str_eq n ev.stream ≡ false = ground (arith, h) in
    let other : str_eq ev.stream n ≡ false =
      ground (arith, apart, eq_iff n ev.stream, eq_iff ev.stream n) in
    let rest : contains names ev.stream ≡ false = ground (arith, h) in
    rw apart (
      ap₂ (λ l r. (n, l) ∷ r) (sym (keep_other n past ev other)) (put_new names past ev rest clear))

contains-append :
    (names : List String) (a b : String)
    → contains (names ++ a ∷ []) b ≡ (contains names b || str_eq a b)
contains-append [] a b = ground arith
contains-append (n ∷ names) a b = ground (arith, contains-append names a b)

AreDistinct-append :
    (names : List String) (a : String)
    → AreDistinct names
    → contains names a ≡ false
    → AreDistinct (names ++ a ∷ [])
unfolding AreDistinct
AreDistinct-append [] a d h = (refl, tt)
AreDistinct-append (n ∷ names) a d h = (
  ground (arith, contains-append names a n, d.0, h, eq_iff n a, eq_iff a n),
  AreDistinct-append names a d.1 (ground (arith, h)),
)

-- The dict after some events, and the streams that have had none.
Clear : List String → List ChangeEvent → Type 0
Clear names past = (name : String) → contains names name ≡ false → keep (is_of name) past ≡ []

group-dict_of :
    (events past : List ChangeEvent) (names : List String)
    → AreDistinct names
    → Clear names past
    → group (dict_of names past) events ≡ dict_of (names_of names events) (past ++ events)
unfolding group Clear
group-dict_of [] past names d clear = ap (dict_of names) (sym (append-nil past))
group-dict_of (ev ∷ events) past names d clear =
    let onward = append_assoc past (ev ∷ []) events in
    elim (Bool-cases (contains names ev.stream)) [
      | inl known ↦
          let put : Dict.put ev.stream (append_event (Dict.get ev.stream (dict_of names past)) ev)
                (dict_of names past)
              ≡ dict_of names (past ++ ev ∷ []) =
            rw (get-dict_of ev.stream names past, known) (put_known names past ev d known) in
          let still : Clear names (past ++ ev ∷ []) = λ name absent.
            let other : str_eq ev.stream name ≡ false =
              ground (arith, eq_iff ev.stream name, known, absent) in
            keep_other name past ev other ∙ clear name absent in
          rw known (
            ap (λ g. group g events) put
            ∙ group-dict_of events (past ++ ev ∷ []) names d still
            ∙ ap (dict_of (names_of names events)) onward)
      | inr new ↦
          let names' = names ++ ev.stream ∷ [] in
          let put : Dict.put ev.stream (append_event (Dict.get ev.stream (dict_of names past)) ev)
                (dict_of names past)
              ≡ dict_of names' (past ++ ev ∷ []) =
            rw (get-dict_of ev.stream names past, new)
              (put_new names past ev new (clear ev.stream new)) in
          let still : Clear names' (past ++ ev ∷ []) = λ name absent.
            let other : str_eq ev.stream name ≡ false =
              ground (arith, contains-append names ev.stream name, absent) in
            let before : contains names name ≡ false =
              ground (arith, contains-append names ev.stream name, absent) in
            keep_other name past ev other ∙ clear name before in
          rw new (
            ap (λ g. group g events) put
            ∙ group-dict_of events (past ++ ev ∷ []) names'
                (AreDistinct-append names ev.stream d new) still
            ∙ ap (dict_of (names_of names' events)) onward)
    ]

pub group-by_stream : (events : List ChangeEvent) → group [] events ≡ by_stream events
unfolding AreDistinct Clear
group-by_stream events = group-dict_of events [] [] tt (λ name absent. refl)
