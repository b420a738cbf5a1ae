-- ===== src/Api/Discovery.antt =====
-- The discovery of a source and the cache.
use holypipe.Models.{StreamSchema}
use holypipe.Auth.{ok, fail, Result}
use holypipe.Api.{ConnectorIn, Api, find_row, ConnectorRow}
use holypipe.Cache.{Entry, invalidate, TtlCache}
use holypipe.Prelude.{
  ℕ, ◌+◌, ◌≤◌, ◌≡◌, ◌∙◌, refl, ap, inl, inr, ◌⊎◌, String, true, false, not, ◌&&◌, none, some, List,
  [], ◌∷◌, map, arith, any, str_eq, eq_iff, Bool-cases, Option-cases, if◌then◌else◌,
}
use holypipe.Dict
use holypipe.Dsn.{Urls}
use holypipe.Cache
use holypipe.Dict.{get-put, get-pop, Dict}
use holypipe.Cache
use holypipe.Api.Connectors.{
  found, Answer, update_row, resolve_config, row_of_body, update_source, discover_source,
}

module _ {V : Type 0} (key : String) (c : TtlCache V) where
  get-invalidate : (now : ℕ) → Cache.get key now (invalidate key c) ≡ (none, invalidate key c)
  unfolding Cache.get Cache.get_entry Cache.invalidate
  get-invalidate now =
      let gone : Dict.get key (Dict.pop key c.store) ≡ none =
        ground (arith, get-pop key key c.store, eq_iff key key) in
      rw gone refl

  get-set :
      (value : V) (now later : ℕ)
      → now ≤ later + c.default_ttl
      → Cache.get key now (Cache.set key (some value) none later c)
        ≡ (some value, Cache.set key (some value) none later c)
  unfolding Cache.get Cache.get_entry Cache.set Cache.lifetime
  get-set value now later h =
      let entry : Entry V = record { expires_at = later + c.default_ttl; value = some value } in
      let there : Dict.get key (Dict.put key entry c.store) ≡ some entry =
        ground (arith, get-put key key entry c.store, eq_iff key key) in
      rw there (ground (arith, h))

find_row-map :
    (id : String) (new old : ConnectorRow) (rows : List ConnectorRow)
    → find_row id rows ≡ some old
    → str_eq new.id id ≡ true
    → find_row id (map (λ (row : ConnectorRow). if str_eq row.id id then new else row) rows)
      ≡ some new
find_row-map id new old [] h same = cc
find_row-map id new old (row ∷ rows) h same = ground (arith, find_row-map id new old rows)

Result-cases :
    {A : Type 0} (r : Result A) → ((status : ℕ) × (r ≡ fail status)) ⊎ ((a : A) × (r ≡ ok a))
Result-cases (fail status) = inl (status, refl)
Result-cases (ok a) = inr (a, refl)

update_row-find_row :
    (urls : Urls) (id : String) (body : ConnectorIn) (row : ConnectorRow) (rows : List ConnectorRow)
    → (update_row urls id body rows).0 ≡ ok row
    → find_row id (update_row urls id body rows).1 ≡ some row
unfolding update_row
update_row-find_row urls id body row rows = elim (Option-cases (find_row id rows)) [
  | inl e ↦ rw (e, update_row) (λ h. cc)
  | inr (old, e) ↦ elim (Result-cases (resolve_config urls body)) [
    | inl (status, r) ↦ rw (e, r, update_row) (λ h. cc)
    | inr (config, r) ↦
        elim (Bool-cases (
          any (λ (row : ConnectorRow). str_eq row.name body.name && not (str_eq row.id id)) rows)) [
            | inl taken ↦ rw (e, r, taken, update_row) (λ h. cc)
            | inr free ↦
                rw (e, r, free, update_row)
                  (λ h.
                    let new = row_of_body id body config in
                    let passed : new ≡ row = cc in
                    let same : str_eq new.id id ≡ true = ground (arith, eq_iff id id) in
                    find_row-map id new old rows e same ∙ ap some passed)
          ]
  ]
]

update_source-find_row :
    (urls : Urls) (id : String) (body : ConnectorIn) (row : ConnectorRow) (api : Api)
    → (update_source urls id body api).0 ≡ ok row
    → find_row id (update_source urls id body api).1.sources ≡ some row
unfolding update_source
update_source-find_row urls id body row api h =
    rw h (update_row-find_row urls id body row api.sources h)

update_source-cache :
    (urls : Urls) (id : String) (body : ConnectorIn) (row : ConnectorRow) (api : Api)
    → (update_source urls id body api).0 ≡ ok row
    → (update_source urls id body api).1.discovery_cache ≡ invalidate id api.discovery_cache
unfolding update_source
update_source-cache urls id body row api h = rw h refl

discover_source-missed :
    (id : String) (now later : ℕ) (streams : List StreamSchema) (row : ConnectorRow) (api : Api)
    (cache : TtlCache (List StreamSchema))
    → find_row id api.sources ≡ some row
    → Cache.get id now api.discovery_cache ≡ (none, cache)
    → discover_source id false now later (found streams) api
      ≡ (ok streams, record api { discovery_cache = Cache.set id (some streams) none later cache })
unfolding discover_source
discover_source-missed id now later streams row api cache e missed =
    rw (e, missed, discover_source) refl

discover_source-hit :
    (id : String) (now later : ℕ) (answer : Answer) (streams : List StreamSchema)
    (row : ConnectorRow) (api : Api) (cache : TtlCache (List StreamSchema))
    → find_row id api.sources ≡ some row
    → Cache.get id now api.discovery_cache ≡ (some streams, cache)
    → (discover_source id false now later answer api).0 ≡ ok streams
unfolding discover_source
discover_source-hit id now later answer streams row api cache e hit =
    rw (e, hit, discover_source) refl

-- After a source is updated, its next discovery answers what the database answers then, whatever
-- was cached before; and a discovery within the cache's lifetime after that answers the same,
-- without asking the database.
pub discover_source-update_source :
    (urls : Urls) (id : String) (body : ConnectorIn) (row : ConnectorRow) (api : Api)
    (now later again last : ℕ) (streams : List StreamSchema) (answer : Answer)
    → (update_source urls id body api).0 ≡ ok row
    → again ≤ later + api.discovery_cache.default_ttl
    → let updated = (update_source urls id body api).1 in
      let (result, filled) = discover_source id false now later (found streams) updated in
      (result ≡ ok streams) × ((discover_source id false again last answer filled).0 ≡ ok streams)
unfolding Cache.invalidate
discover_source-update_source urls id body row api now later again last streams answer h fresh =
    let updated = (update_source urls id body api).1 in
    let cache = invalidate id api.discovery_cache in
    let there = update_source-find_row urls id body row api h in
    let dropped = update_source-cache urls id body row api h in
    let missed : Cache.get id now updated.discovery_cache ≡ (none, cache) =
      ap (Cache.get id now) dropped ∙ get-invalidate id api.discovery_cache now in
    let asked = discover_source-missed id now later streams row updated cache there missed in
    let filled = record updated {
      discovery_cache = Cache.set id (some streams) none later cache;
    } in
    let hit = get-set id cache streams again later fresh in
    rw asked (
      refl,
      discover_source-hit id again last answer streams row filled filled.discovery_cache there hit,
    )
