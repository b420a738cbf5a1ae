-- ===== src/Api/Connectors.antt =====
-- Sources and destinations: the handlers of the two are alike, but only those of sources drop
-- entries of the discovery cache.
use holypipe.Cache.{invalidate, set, TtlCache}
use holypipe.Auth.{fail, ok, Result}
use holypipe.Api.{destination_types, find_row, source_types, Api, ConnectorIn, ConnectorRow}
use holypipe.Models.{Connection, StreamSchema, Value}
use holypipe.Prelude.{
  ℕ, String, Bool, true, not, ◌&&◌, Option, none, some, List, [], ◌∷◌, ◌++◌, map, keep, any,
  contains, str_eq, if◌then◌else◌,
}
use holypipe.Dict
use holypipe.Dsn.{Urls, DsnResult, config_of, dsn_error, value_error, parse_dsn}
use holypipe.Cache
use holypipe.Dict.{Dict}

-- `_resolve_config`
abbrev resolved : DsnResult → Result (Dict Value)
resolved (config_of config) = ok config
resolved dsn_error = fail 400
resolved value_error = fail 500

unfoldable pub resolve_config : Urls → ConnectorIn → Result (Dict Value)
unfolding parse_dsn
resolve_config urls body = elim body.uri [
  | none ↦ ok body.config
  | some uri ↦ if str_eq uri "" then ok body.config else resolved (parse_dsn urls body.type uri)
]

abbrev pub row_of_body : String → ConnectorIn → Dict Value → ConnectorRow
row_of_body id body config = record { id = id; name = body.name; type = body.type; config = config }

-- Both creations, on the table's rows.
unfoldable pub create_row :
    List String
    → Urls
    → String
    → ConnectorIn
    → List ConnectorRow
    → Result ConnectorRow × List ConnectorRow
unfolding resolve_config
create_row types urls id body rows =
    if not (contains types body.type)
    then (fail 400, rows)
    else if any (λ (row : ConnectorRow). str_eq row.name body.name) rows
    then (fail 409, rows)
    else elim (resolve_config urls body) [
      | fail status ↦ (fail status, rows)
      | ok config ↦ (ok (row_of_body id body config), rows ++ row_of_body id body config ∷ [])
    ]

-- Both updates; a name that another row has breaks the unique constraint at the commit.
unfoldable pub update_row :
    Urls → String → ConnectorIn → List ConnectorRow → Result ConnectorRow × List ConnectorRow
unfolding resolve_config
update_row urls id body rows = elim (find_row id rows) [
  | none ↦ (fail 404, rows)
  | some old ↦ elim (resolve_config urls body) [
    | fail status ↦ (fail status, rows)
    | ok config ↦
        if any (λ (row : ConnectorRow). str_eq row.name body.name && not (str_eq row.id id)) rows
        then (fail 500, rows)
        else (
          ok (row_of_body id body config),
          map (λ (row : ConnectorRow). if str_eq row.id id then row_of_body id body config else row)
              rows,
        )
  ]
]

-- Both deletions; `used` are the connections that have the row.
unfoldable pub delete_row : String → Bool → List ConnectorRow → Result Bool × List ConnectorRow
delete_row id used rows = elim (find_row id rows) [
  | none ↦ (fail 404, rows)
  | some row ↦
      if used
      then (fail 409, rows)
      else (ok true, keep (λ (row : ConnectorRow). not (str_eq row.id id)) rows)
]

-- After a handler's commit.
abbrev invalidate_if : {A : Type 0} → Result A → String → Api → Api
invalidate_if (ok a) id api = record api { discovery_cache = invalidate id api.discovery_cache }
invalidate_if (fail status) id api = api

module _ (urls : Urls) where
  unfoldable pub create_source : String → ConnectorIn → Api → Result ConnectorRow × Api
  unfolding create_row
  create_source id body api =
      let (result, rows) = create_row (Dict.keys source_types) urls id body api.sources in
      (result, record api { sources = rows })

  unfoldable pub update_source : String → ConnectorIn → Api → Result ConnectorRow × Api
  unfolding update_row
  update_source id body api =
      let (result, rows) = update_row urls id body api.sources in
      (result, invalidate_if result id (record api { sources = rows }))

  unfoldable pub create_destination : String → ConnectorIn → Api → Result ConnectorRow × Api
  unfolding create_row
  create_destination id body api =
      let (result, rows) = create_row destination_types urls id body api.destinations in
      (result, record api { destinations = rows })

  unfoldable pub update_destination : String → ConnectorIn → Api → Result ConnectorRow × Api
  unfolding update_row
  update_destination id body api =
      let (result, rows) = update_row urls id body api.destinations in
      (result, record api { destinations = rows })

unfoldable pub delete_source : String → Api → Result Bool × Api
unfolding delete_row
delete_source id api =
    let used = any (λ (conn : Connection). str_eq conn.source_id id) api.connections in
    let (result, rows) = delete_row id used api.sources in
    (result, invalidate_if result id (record api { sources = rows }))

unfoldable pub delete_destination : String → Api → Result Bool × Api
unfolding delete_row
delete_destination id api =
    let used = any (λ (conn : Connection). str_eq conn.destination_id id) api.connections in
    let (result, rows) = delete_row id used api.destinations in
    (result, record api { destinations = rows })

-- What a database answers: a ConnectorError, another exception, or the streams.
pub data Answer : Type 0 where
  refused crashed : Answer
  found : List StreamSchema → Answer

abbrev discovered : String → ℕ → Answer → Api → Result (List StreamSchema) × Api
discovered id now refused api = (fail 400, api)
discovered id now crashed api = (fail 500, api)
discovered id now (found streams) api = (
  ok streams,
  record api { discovery_cache = set id (some streams) none now api.discovery_cache },
)

abbrev read_cache :
    String
    → ℕ
    → Answer
    → Api
    → Option (List StreamSchema) × TtlCache (List StreamSchema)
    → Result (List StreamSchema) × Api
read_cache id later answer api (some streams, cache) =
    (ok streams, record api { discovery_cache = cache })
read_cache id later answer api (none, cache) =
    discovered id later answer (record api { discovery_cache = cache })

-- `discover_source`; the cache is read at one time and filled at a later one.
unfoldable pub discover_source :
    String → Bool → ℕ → ℕ → Answer → Api → Result (List StreamSchema) × Api
unfolding Cache.get Cache.set Cache.invalidate
discover_source id refresh now later answer api = elim (find_row id api.sources) [
  | none ↦ (fail 404, api)
  | some row ↦ read_cache id later answer api (
      Cache.get id now (if refresh then invalidate id api.discovery_cache else api.discovery_cache))
]
