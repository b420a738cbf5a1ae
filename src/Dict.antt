-- ===== src/Dict.antt =====
-- Python's dict with text keys: insertion order is kept, a second assignment stays in place.
use holypipe.Prelude.{
  ◌≡◌, refl, String, Bool, Option, none, some, List, [], ◌∷◌, arith, eq_iff, str_eq, if◌then◌else◌,
}

abbrev pub Dict {ℓ} : Type ℓ → Type ℓ
Dict V = List (String × V)

module _ {ℓ} {V : Type ℓ} where
  -- `d.get(k)`
  abbrev pub get : String → Dict V → Option V
  get k [] = none
  get k ((j, v) ∷ d) = if str_eq j k then some v else get k d

  -- `d[k] = v`
  abbrev pub put : String → V → Dict V → Dict V
  put k v [] = (k, v) ∷ []
  put k v ((j, w) ∷ d) = let rest = put k v d in if str_eq j k then (j, v) ∷ d else (j, w) ∷ rest

  -- `del d[k]`, `d.pop(k, None)`
  abbrev pub pop : String → Dict V → Dict V
  pop k [] = []
  pop k ((j, v) ∷ d) = let rest = pop k d in if str_eq j k then rest else (j, v) ∷ rest

  abbrev pub keys : Dict V → List String
  keys [] = []
  keys ((k, v) ∷ d) = k ∷ keys d

  -- the entries whose key passes a test
  abbrev pub keep_keys : (String → Bool) → Dict V → Dict V
  keep_keys p [] = []
  keep_keys p ((j, v) ∷ d) = let rest = keep_keys p d in if p j then (j, v) ∷ rest else rest

  pub get-put :
      (k j : String) (v : V) (d : Dict V)
      → get j (put k v d) ≡ (if str_eq k j then some v else get j d)
  get-put k j v [] = refl
  get-put k j v ((i, w) ∷ d) = ground (arith, eq_iff k j, eq_iff i k, eq_iff i j, get-put k j v d)

  pub get-pop :
      (k j : String) (d : Dict V) → get j (pop k d) ≡ (if str_eq k j then none else get j d)
  get-pop k j [] = ground arith
  get-pop k j ((i, w) ∷ d) = ground (arith, eq_iff k j, eq_iff i k, eq_iff i j, get-pop k j d)

  pub get-keep_keys :
      (p : String → Bool) (j : String) (d : Dict V)
      → get j (keep_keys p d) ≡ (if p j then get j d else none)
  get-keep_keys p j [] = ground arith
  get-keep_keys p j ((i, w) ∷ d) = ground (arith, eq_iff i j, get-keep_keys p j d)

  pub ruleset dict_laws = (get-put, get-pop, get-keep_keys)
