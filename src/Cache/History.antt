-- ===== src/Cache/History.antt =====
-- The cache against its history: `get` agrees with a map that never deletes on a read.
use text.Mathlib.Text.{starts_with}
use holypipe.Prelude.{
  ℕ, ◌+◌, ◌≤◌, ◌≡◌, refl, String, Option, none, some, List, [], ◌∷◌, arith, eq_iff, ltb, str_eq,
  if◌then◌else◌, ◌∙◌,
}
use holypipe.Dict
use holypipe.Dict.{Dict, get-put, get-pop, get-keep_keys, dict_laws}
use holypipe.Cache.{
  Entry, TtlCache, init, get, get_entry, set, lifetime, invalidate, invalidate_prefix, get_or_set,
  fill,
}

pub data Call {ℓ} (V : Type ℓ) : Type ℓ where
  gets : String → Call V
  sets : String → Option V → Option ℕ → Call V
  invalidates : String → Call V
  invalidates_prefix : String → Call V

-- The specification: a function from keys, in which a read changes nothing.
abbrev pub Contents {ℓ} : Type ℓ → Type ℓ
Contents V = String → Option (Entry V)

module _ {ℓ} {V : Type ℓ} where
  -- What a client may see of an entry at a time.
  abbrev pub visible : ℕ → Option (Entry V) → Option V
  visible now none = none
  visible now (some entry) = if ltb entry.expires_at now then none else entry.value

  unfoldable pub step : TtlCache V → ℕ × Call V → TtlCache V
  step c (now, gets key) = (get key now c).1
  step c (now, sets key value ttl) = set key value ttl now c
  step c (now, invalidates key) = invalidate key c
  step c (now, invalidates_prefix prefix) = invalidate_prefix prefix c

  unfoldable pub run : TtlCache V → List (ℕ × Call V) → TtlCache V
  run c [] = c
  run c (call ∷ calls) = run (step c call) calls

  unfoldable pub spec_step : ℕ → Contents V → ℕ × Call V → Contents V
  spec_step default m (now, gets key) j = m j
  spec_step default m (now, sets key value ttl) j =
      if str_eq key j
      then some (record { expires_at = now + lifetime ttl default; value = value })
      else m j
  spec_step default m (now, invalidates key) j = if str_eq key j then none else m j
  spec_step default m (now, invalidates_prefix prefix) j =
      if starts_with j prefix then none else m j

  unfoldable pub spec_run : ℕ → Contents V → List (ℕ × Call V) → Contents V
  spec_run default m [] = m
  spec_run default m (call ∷ calls) = spec_run default (spec_step default m call) calls

  -- The monotonic clock: no call is earlier than `t`, nor than the call before it, nor later
  -- than `now`.
  abbrev pub InOrder : ℕ → List (ℕ × Call V) → ℕ → Type 0
  InOrder t [] now = t ≤ now
  InOrder t ((u, call) ∷ calls) now = (t ≤ u) × InOrder u calls now

  -- From time `t` on the two are told apart by no read.
  record Agree (t : ℕ) (c : TtlCache V) (m : Contents V) : Type ℓ where
    at :
        (key : String) (now : ℕ)
        → t ≤ now
        → visible now (Dict.get key c.store) ≡ visible now (m key)

  default-step : (c : TtlCache V) (call : ℕ × Call V) → (step c call).default_ttl ≡ c.default_ttl
  unfolding step get get_entry set invalidate invalidate_prefix
  default-step c (now, gets key) = ground arith
  default-step c (now, sets key value ttl) = refl
  default-step c (now, invalidates key) = refl
  default-step c (now, invalidates_prefix prefix) = refl

  -- A read drops an entry only once it shows to nobody.
  visible-get :
      (c : TtlCache V) (key j : String) (u now : ℕ)
      → u ≤ now
      → visible now (Dict.get j (get key u c).1.store) ≡ visible now (Dict.get j c.store)
  unfolding get get_entry
  visible-get c key j u now h = ground (arith, get-pop key j c.store, eq_iff key j)

  Agree-step :
      (t u : ℕ) (c : TtlCache V) (m : Contents V) (call : Call V)
      → t ≤ u
      → Agree t c m
      → Agree u (step c (u, call)) (spec_step c.default_ttl m (u, call))
  unfolding step spec_step set invalidate invalidate_prefix
  Agree-step t u c m (gets key) h a = record {
    at = λ j now le. visible-get c key j u now le ∙ a.at j now (omega arith);
  }
  Agree-step t u c m (sets key value ttl) h a = record {
    at = λ j now le. rw get-put (ground (arith, a.at j now));
  }
  Agree-step t u c m (invalidates key) h a = record {
    at = λ j now le. rw get-pop (ground (arith, a.at j now));
  }
  Agree-step t u c m (invalidates_prefix prefix) h a = record {
    at = λ j now le. rw get-keep_keys (ground (arith, a.at j now));
  }

  Agree-run :
      (default t now : ℕ) (c : TtlCache V) (m : Contents V) (calls : List (ℕ × Call V))
      → c.default_ttl ≡ default
      → InOrder t calls now
      → Agree t c m
      → (key : String)
      → visible now (Dict.get key (run c calls).store) ≡ visible now (spec_run default m calls key)
  unfolding run spec_run step
  Agree-run default t now c m [] e h a key = a.at key now h
  Agree-run default t now c m ((u, call) ∷ calls) e h a key =
      let after = rw e at (Agree-step t u c m call h.0 a) in
      Agree-run default u now (step c (u, call)) (spec_step default m (u, call)) calls
        (default-step c (u, call) ∙ e) h.1 after key

  get-visible :
      (c : TtlCache V) (key : String) (now : ℕ)
      → (get key now c).0 ≡ visible now (Dict.get key c.store)
  unfolding get get_entry
  get-visible c key now = ground arith

  -- After any calls at times in order, `get` returns what the specification shows at that time:
  -- the value last set and not invalidated since, while it has not expired, and else None.
  pub get-run :
      (default t now : ℕ) (calls : List (ℕ × Call V)) (key : String)
      → InOrder t calls now
      → (get key now (run (init default) calls)).0
        ≡ visible now (spec_run default (λ j. none) calls key)
  unfolding init
  get-run default t now calls key h =
      get-visible _ key now
      ∙ Agree-run default t now (init default) (λ j. none) calls refl h
          (record { at = λ j later le. refl }) key

  fill_lem :
      (key : String) (value : Option V) (ttl later at : ℕ) (p : Option V × TtlCache V)
      → p.0 ≡ none
      → (fill key none (some ttl) later p ≡ (none, p.1))
        × ((fill key (some value) (some ttl) later p).0 ≡ some value)
        × ((get key at (fill key (some value) (some ttl) later p).1).0
            ≡ (if ltb (later + ttl) at then none else value))
  unfolding fill set lifetime get get_entry
  fill_lem key value ttl later at (some v, c) h = cc
  fill_lem key value ttl later at (none, c) h =
      (refl, refl, rw get-put (ground (arith, eq_iff key key)))

  -- `get_or_set` makes a value exactly when `get` shows None. Then a raise of the factory leaves
  -- what the read left, and a made value is returned, and shows until its lifetime is over.
  pub get_or_set_lem :
      (c : TtlCache V) (key : String) (value : Option V) (ttl : ℕ) (now later at : ℕ)
      → (get key now c).0 ≡ none
      → (get_or_set key none (some ttl) now later c ≡ (none, (get key now c).1))
        × ((get_or_set key (some value) (some ttl) now later c).0 ≡ some value)
        × ((get key at (get_or_set key (some value) (some ttl) now later c).1).0
            ≡ (if ltb (later + ttl) at then none else value))
  unfolding get_or_set
  get_or_set_lem c key value ttl now later at h = fill_lem key value ttl later at (get key now c) h
