-- ===== src/Bus/Fanout.antt =====
-- What `pump` hands to the subscribers.
use holypipe.Prelude.{
  ℕ, suc, zero, ◌<◌, ◌≤◌, ◌≡◌, refl, ap, sym, ◌∙◌, String, some, List, [], ◌∷◌, ◌++◌, arith, length,
  length-append, ltb, eq_iff, Bool-cases, ltb→lt, take, ◌⊎◌, inl, inr,
}
use mathlib.Core.List.{append-nil, append_assoc}
use holypipe.Dict
use holypipe.Dict.{Dict}
use holypipe.Bus.{Subscribers, subscriber_size, offer, fanout, pump}

module _ {E : Type 0} where
  -- Every subscriber is offered every event, and no other queue is touched.
  get-fanout :
      (event : E) (name : String) (subs : Subscribers E) (q : List E)
      → Dict.get name subs ≡ some q
      → Dict.get name (fanout event subs) ≡ some (offer event q)
  unfolding fanout
  get-fanout event name [] q h = cc
  get-fanout event name ((other, q') ∷ subs) q h =
      ground (arith, get-fanout event name subs q, eq_iff other name)

  -- The rounds of `pump` that drain a list of events.
  pub rounds : ℕ → List E × Subscribers E → List E × Subscribers E
  rounds zero s = s
  rounds (suc n) s = rounds n (pump s)

  offer_all : List E → List E → List E
  offer_all [] q = q
  offer_all (event ∷ events) q = offer_all events (offer event q)

  get-rounds :
      (events : List E) (subs : Subscribers E) (name : String) (q : List E)
      → Dict.get name subs ≡ some q
      → ((rounds (length events) (events, subs)).0 ≡ [])
        × (Dict.get name (rounds (length events) (events, subs)).1 ≡ some (offer_all events q))
  unfolding rounds pump offer_all
  get-rounds [] subs name q h = (refl, h)
  get-rounds (event ∷ events) subs name q h =
      get-rounds events (fanout event subs) name (offer event q) (get-fanout event name subs q h)

  take-append_full : (n : ℕ) (xs ys : List E) → length xs ≡ n → take n (xs ++ ys) ≡ xs
  take-append_full zero [] ys h = refl
  take-append_full (suc n) [] ys h = absurd (omega arith)
  take-append_full zero (x ∷ xs) ys h = absurd (omega arith)
  take-append_full (suc n) (x ∷ xs) ys h = ap (◌∷◌ x) (take-append_full n xs ys (omega arith))

  take-short : (n : ℕ) (xs : List E) → length xs ≤ n → take n xs ≡ xs
  take-short zero [] h = refl
  take-short (suc n) [] h = refl
  take-short zero (x ∷ xs) h = absurd (omega arith)
  take-short (suc n) (x ∷ xs) h = ap (◌∷◌ x) (take-short n xs (omega arith))

  offer_cases :
      (event : E) (q : List E)
      → length q ≤ subscriber_size
      → ((length q < subscriber_size) × (offer event q ≡ q ++ event ∷ []))
        ⊎ ((length q ≡ subscriber_size) × (offer event q ≡ q))
  offer_cases event q h = elim (Bool-cases (ltb (length q) subscriber_size)) [
    | inl room ↦ inl (ltb→lt _ _ room, rw (room, offer))
    | inr no_room ↦ inr (ground arith, rw (no_room, offer))
  ]

  offer_all-take :
      (events q : List E)
      → length q ≤ subscriber_size
      → offer_all events q ≡ take subscriber_size (q ++ events)
  unfolding offer_all
  offer_all-take [] q h =
      sym (take-short subscriber_size (q ++ []) (rw append-nil h) ∙ append-nil q)
  offer_all-take (event ∷ events) q h = elim (offer_cases event q h) [
    | inl (room, e) ↦ rw e (
        offer_all-take events (q ++ event ∷ []) (omega (arith, length-append q (event ∷ [])))
        ∙ ap (take subscriber_size) (append_assoc q (event ∷ []) events))
    | inr (full, e) ↦ rw e (
        offer_all-take events q h
        ∙ take-append_full subscriber_size q events full
        ∙ sym (take-append_full subscriber_size q (event ∷ events) full))
  ]

  -- Draining the event queue hands each subscriber the events in order, behind what its queue
  -- held, as far as the queue has room; the events past that are dropped for this subscriber.
  pub rounds_deliver :
      (events : List E) (subs : Subscribers E) (name : String) (q : List E)
      → Dict.get name subs ≡ some q
      → length q ≤ subscriber_size
      → ((rounds (length events) (events, subs)).0 ≡ [])
        × (Dict.get name (rounds (length events) (events, subs)).1
            ≡ some (take subscriber_size (q ++ events)))
  rounds_deliver events subs name q h le =
      let (empty, kept) = get-rounds events subs name q h in
      (empty, kept ∙ ap some (offer_all-take events q le))
