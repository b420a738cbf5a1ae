-- ===== src/Bus/Newest.antt =====
-- The queue holds the newest events.
use holypipe.Prelude.{
  ℕ, suc, zero, ◌+◌, ◌-◌, ◌<◌, ◌≤◌, ◌≡◌, refl, sym, ap, ◌∙◌, List, [], ◌∷◌, ◌++◌, arith, length,
  length-append, drop,
}
use mathlib.Core.List.{append-nil, append_assoc}
use holypipe.Bus.{Published, queue, full, publish, replace}

abbrev no_events : (E : Type 0) → List E
no_events E = []

add_suc : (n m : ℕ) → suc (n + m) ≡ suc n + m
add_suc n m = omega arith

module _ {E : Type 0} where
  -- The last `size` elements.
  unfoldable pub newest : ℕ → List E → List E
  newest size events = drop (length events - size) events

  drop-append : (n : ℕ) (xs ys : List E) → n ≤ length xs → drop n (xs ++ ys) ≡ drop n xs ++ ys
  drop-append zero xs ys h = refl
  drop-append (suc n) [] ys h = absurd (omega arith)
  drop-append (suc n) (x ∷ xs) ys h = drop-append n xs ys (omega arith)

  drop-nil : (n : ℕ) → drop n (no_events E) ≡ []
  drop-nil zero = refl
  drop-nil (suc n) = refl

  drop-drop : (m n : ℕ) (xs : List E) → drop m (drop n xs) ≡ drop (n + m) xs
  drop-drop m zero xs = ap (λ k. drop k xs) (omega arith)
  drop-drop m (suc n) [] = drop-nil m ∙ sym (drop-nil (suc n + m))
  drop-drop m (suc n) (x ∷ xs) = drop-drop m n xs ∙ ap (λ k. drop k (x ∷ xs)) (add_suc n m)

  length-drop : (n : ℕ) (xs : List E) → length (drop n xs) ≡ length xs - n
  length-drop zero xs = omega arith
  length-drop (suc n) [] = omega arith
  length-drop (suc n) (x ∷ xs) = omega (arith, length-drop n xs)

  newest-append :
      (size : ℕ) (xs ys : List E) → newest size (newest size xs ++ ys) ≡ newest size (xs ++ ys)
  unfolding newest
  newest-append size xs ys =
      let n = length xs - size in
      rw (← drop-append n xs ys (omega arith)) (
        drop-drop (length (drop n (xs ++ ys)) - size) n (xs ++ ys)
        ∙ ap (λ k. drop k (xs ++ ys))
            (omega (arith, length-drop n (xs ++ ys), length-append xs ys)))

  newest-short : (size : ℕ) (xs : List E) → length xs ≤ size → newest size xs ≡ xs
  unfolding newest
  newest-short size xs h =
      let zero_over : length xs - size ≡ 0 = omega arith in ap (λ k. drop k xs) zero_over

  newest-full : (size : ℕ) (x : E) (xs : List E) → length xs ≡ size → newest size (x ∷ xs) ≡ xs
  unfolding newest
  newest-full size x xs h =
      let one : suc (length xs) - size ≡ 1 = omega arith in ap (λ k. drop k (x ∷ xs)) one

  -- One call appends the event, and drops the oldest if there is no room.
  publish_lem :
      (size : ℕ) (event : E) (q : List E)
      → 0 < size
      → length q ≤ size
      → publish size event q ≡ queue (newest size (q ++ event ∷ []))
  unfolding publish replace
  publish_lem size event [] h le = ground (arith, newest-short size (event ∷ []))
  publish_lem size event (oldest ∷ rest) h le = ground (
    arith,
    length-append rest (event ∷ []),
    newest-short size (oldest ∷ (rest ++ event ∷ [])),
    newest-full size oldest (rest ++ event ∷ []),
  )

  length-newest-le : (size : ℕ) (xs : List E) → length (newest size xs) ≤ size
  unfolding newest
  length-newest-le size xs = omega (arith, length-drop (length xs - size) xs)

  -- Publishing a list of events one after another, without other threads.
  pub publish_all : ℕ → List E → List E → Published E
  publish_all size [] q = queue q
  publish_all size (event ∷ events) q = elim (publish size event q) [
    | queue q' ↦ publish_all size events q'
    | full ↦ full
  ]

  -- One thread alone, on a queue of at least one place that holds no more than its size: publishing
  -- events one after another does not raise, and leaves the newest `size` of what was there and
  -- what came, in order, which are no more than its size.
  pub publish_all-newest :
      (size : ℕ) (events q : List E)
      → 0 < size
      → length q ≤ size
      → (publish_all size events q ≡ queue (newest size (q ++ events)))
        × (length (newest size (q ++ events)) ≤ size)
  unfolding publish_all
  publish_all-newest size [] q h le = (
    ap queue (sym (newest-short size q le) ∙ ap (newest size) (sym (append-nil q))),
    length-newest-le size (q ++ []),
  )
  publish_all-newest size (event ∷ events) q h le =
      let q' = newest size (q ++ event ∷ []) in
      let later = publish_all-newest size events q' h (length-newest-le size (q ++ event ∷ [])) in
      (
        rw (publish_lem size event q h le, publish_all)
            (later.0
              ∙ ap queue (
                  newest-append size (q ++ event ∷ []) events
                  ∙ ap (newest size) (append_assoc q (event ∷ []) events))),
        length-newest-le size (q ++ event ∷ events),
      )
