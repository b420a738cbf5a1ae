-- ===== src/Cache.antt =====
-- cache.py: the in-memory TTL cache of discovery results. A call is given the value that
-- `time.monotonic()` returns in it. `Option V` stands for a Python value, `none` for None.
-- The lock makes each call atomic, so a run of the cache is a list of calls.
pub mod History
mod Tests
use text.Mathlib.Text.{starts_with}
use holypipe.Prelude.{
  ℕ, ◌+◌, String, Bool, true, false, not, Option, none, some, List, [], ◌∷◌, ltb, if◌then◌else◌,
}
use holypipe.Dict
use holypipe.Dict.{Dict}

pub record Entry {ℓ} (V : Type ℓ) : Type ℓ where
  pub expires_at : ℕ
  pub value : Option V

pub record TtlCache {ℓ} (V : Type ℓ) : Type ℓ where
  pub store : Dict (Entry V)
  pub default_ttl : ℕ

-- `ttl if ttl is not None else self.default_ttl`
unfoldable pub lifetime : Option ℕ → ℕ → ℕ
lifetime none default_ttl = default_ttl
lifetime (some ttl) default_ttl = ttl

module _ {ℓ} {V : Type ℓ} where
  pub init : ℕ → TtlCache V
  init default_ttl = record { store = []; default_ttl = default_ttl }

  -- What `get` does with the entry that it found.
  unfoldable pub get_entry : String → ℕ → Option (Entry V) → TtlCache V → Option V × TtlCache V
  get_entry key now none c = (none, c)
  get_entry key now (some entry) c =
      if ltb entry.expires_at now
      then (none, record c { store = Dict.pop key c.store })
      else (entry.value, c)

  unfoldable pub get : String → ℕ → TtlCache V → Option V × TtlCache V
  unfolding get_entry
  get key now c = get_entry key now (Dict.get key c.store) c

  unfoldable pub set : String → Option V → Option ℕ → ℕ → TtlCache V → TtlCache V
  unfolding lifetime
  set key value ttl now c =
      let entry : Entry V = record {
        expires_at = now + lifetime ttl c.default_ttl;
        value = value;
      } in
      record c { store = Dict.put key entry c.store }

  unfoldable pub invalidate : String → TtlCache V → TtlCache V
  invalidate key c = record c { store = Dict.pop key c.store }

  pub invalidate_prefix : String → TtlCache V → TtlCache V
  invalidate_prefix prefix c = record c {
    store = Dict.keep_keys (λ k. not (starts_with k prefix)) c.store;
  }

  -- The part of `get_or_set` behind its `get`. `made` is what `factory()` does: it returns a
  -- value, or raises, which is `none`. The result `none` is that exception, passed on.
  fill :
      String
      → Option (Option V)
      → Option ℕ
      → ℕ
      → Option V × TtlCache V
      → Option (Option V) × TtlCache V
  fill key made ttl later (some value, c) = (some (some value), c)
  fill key none ttl later (none, c) = (none, c)
  fill key (some value) ttl later (none, c) = (some value, set key value ttl later c)

  pub get_or_set :
      String → Option (Option V) → Option ℕ → ℕ → ℕ → TtlCache V → Option (Option V) × TtlCache V
  unfolding fill
  get_or_set key made ttl now later c = fill key made ttl later (get key now c)
