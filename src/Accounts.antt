-- ===== src/Accounts.antt =====
-- The handlers of api/auth_routes.py that change the store, behind their permission checks: a
-- handler takes the user whom its dependency let in. Fresh ids and tokens are arguments. Answers
-- carry no more than a later request can see; an error's status is the result `fail`. A broken
-- unique constraint at a commit is the status 500. Body fields are validated before.
pub mod Login
pub mod Admins
mod Tests
use holypipe.Prelude.{
  ℕ, ◌+◌, ◌-◌, ◌*◌, String, Bool, true, false, not, ◌&&◌, ◌||◌, Option, none, some, List, [], ◌∷◌,
  ◌++◌, map, keep, any, all, add, contains, length, ◌==◌, str_eq, if◌then◌else◌,
}
use holypipe.Prelude.Int.{ℤ, pos, negsuc}
use holypipe.Models.{second}
use holypipe.Auth.{
  Role, User, Session, ApiToken, Store, Hashes, AuthUser, Result, ok, fail, has, auth_user_from,
  verify_password, create_session, destroy_session, destroy_all_sessions_for, find_user, find_token,
  create_api_token, revoke_api_token,
}
use holypipe.Auth.Throttle.{Failures, check, record_failure, clear}

abbrev pub find_username : String → List User → Option User
find_username username [] = none
find_username username (row ∷ rows) =
    if str_eq row.username username then some row else find_username username rows

abbrev pub find_role : String → List Role → Option Role
find_role id [] = none
find_role id (row ∷ rows) = if str_eq row.id id then some row else find_role id rows

-- `db.get(User, id)` and its columns set, at the commit.
abbrev pub change_user : String → (User → User) → Store → Store
change_user id f s = record s {
  users = map (λ row. if str_eq row.id id then f row else row) s.users;
}

pub record LoggedIn : Type 0 where
  pub result : Result AuthUser
  pub failures : Failures
  pub store : Store

abbrev accepts : Hashes → String → Option User → Option User
accepts h password none = none
accepts h password (some user) =
    if user.is_active && verify_password h password user.password_hash then some user else none

-- `login`; the new session's token goes into the cookie.
unfoldable pub login : Hashes → String → ℕ → String → String → Failures → Store → LoggedIn
login h token now username password f s =
    let (allowed, f') = check username now f in
    if not allowed
    then record { result = fail 429; failures = f'; store = s }
    else elim (accepts h password (find_username username s.users)) [
      | none ↦ record { result = fail 401; failures = record_failure username now f'; store = s }
      | some user ↦ record {
        result = ok (auth_user_from s user);
        failures = clear username f';
        store = create_session token user.id now s;
      }
    ]

pub logout : Option String → Store → Store
logout none s = s
logout (some token) s = if str_eq token "" then s else destroy_session token s

unfoldable pub change_password :
    Hashes → String → ℕ → String → String → AuthUser → Store → Result Bool × Store
change_password h token now old new user s = elim (find_user user.id s.users) [
  | none ↦ (fail 400, s)
  | some row ↦
      if verify_password h old row.password_hash
      then (
        ok true,
        create_session token user.id now (
            destroy_all_sessions_for user.id (
              change_user user.id
                (λ u. record u { password_hash = h.hash new; must_change_password = false }) s)),
      )
      else (fail 400, s)
]

-- PERMISSIONS of auth.py
abbrev pub permission_codes : List String
permission_codes =
    "sources.view" ∷ "sources.manage" ∷ "destinations.view" ∷ "destinations.manage"
    ∷ "connections.view" ∷ "connections.manage" ∷ "connections.operate" ∷ "logs.view"
    ∷ "users.manage" ∷ "roles.manage" ∷ []

abbrev known : List String → Bool
known codes = all (λ code. contains permission_codes code || str_eq code "*") codes

abbrev named : String → Role → Bool
named name role = str_eq role.name name

pub create_role : String → String → List String → AuthUser → Store → Result Role × Store
create_role id name codes user s =
    if not (known codes)
    then (fail 400, s)
    else if any (named name) s.roles
    then (fail 409, s)
    else (
      ok (record { id = id; name = name; permissions = codes; is_builtin = false }),
      record s {
        roles =
            s.roles
            ++ record { id = id; name = name; permissions = codes; is_builtin = false } ∷ [];
      },
    )

pub update_role : String → String → List String → AuthUser → Store → Result Bool × Store
update_role id name codes user s = elim (find_role id s.roles) [
  | none ↦ (fail 404, s)
  | some role ↦
      if role.is_builtin || not (known codes)
      then (fail 400, s)
      else if any (λ r. named name r && not (str_eq r.id id)) s.roles
      then (fail 500, s)
      else (
        ok true,
        record s {
          roles =
              map (λ r. if str_eq r.id id then record r { name = name; permissions = codes } else r)
                s.roles;
        },
      )
]

pub delete_role : String → AuthUser → Store → Result Bool × Store
delete_role id user s = elim (find_role id s.roles) [
  | none ↦ (fail 404, s)
  | some role ↦
      if role.is_builtin
      then (fail 400, s)
      else if any (λ u. contains u.roles id) s.users
      then (fail 409, s)
      else (ok true, record s { roles = keep (λ r. not (str_eq r.id id)) s.roles })
]

-- The rows of the given ids; `none` if one of the ids has none.
abbrev distinct : List String → List String
distinct [] = []
distinct (id ∷ ids) = add id (distinct ids)

pub found_roles : List String → List Role → Option (List Role)
found_roles ids roles =
    let rows = keep (λ role. contains ids role.id) roles in
    if length rows == length (distinct ids) then some rows else none

abbrev ids_of : List Role → List String
ids_of = map (λ role. role.id)

pub create_user :
    Hashes → String → String → String → Bool → List String → AuthUser → Store → Result Bool × Store
unfolding found_roles
create_user h id username password is_active role_ids user s =
    elim (find_username username s.users) [
      | some row ↦ (fail 409, s)
      | none ↦ elim (found_roles role_ids s.roles) [
        | none ↦ (fail 400, s)
        | some rows ↦ (
          ok true,
          record s {
            users =
                s.users
                ++ record {
                  id = id;
                  username = username;
                  password_hash = h.hash password;
                  is_active = is_active;
                  must_change_password = false;
                  roles = ids_of rows;
                }
                  ∷ [];
          },
        )
      ]
    ]

pub record UserPatch : Type 0 where
  pub role_ids : Option (List String)
  pub is_active : Option Bool
  pub password : Option String

abbrev some_builtin : List Role → Bool
some_builtin = any (λ role. role.is_builtin)

-- The roles of a patch: the ids to hold from now on, or the status of a refusal.
pub new_roles : UserPatch → User → AuthUser → Store → Result (List String)
unfolding found_roles
new_roles patch row current s = elim patch.role_ids [
  | none ↦ ok row.roles
  | some ids ↦ elim (found_roles ids s.roles) [
    | none ↦ fail 400
    | some rows ↦
        if str_eq row.id current.id && not (some_builtin rows) then fail 400 else ok (ids_of rows)
  ]
]

abbrev deactivates : Option Bool → Bool
deactivates none = false
deactivates (some active) = not active

abbrev active_after : Option Bool → Bool → Bool
active_after none active = active
active_after (some active') active = active'

abbrev patch_active : Option Bool → String → Store → Store
patch_active is_active id s =
    let s' = change_user id (λ u. record u { is_active = active_after is_active u.is_active }) s in
    if deactivates is_active then destroy_all_sessions_for id s' else s'

abbrev patch_password : Hashes → Option String → String → Store → Store
patch_password h none id s = s
patch_password h (some password) id s =
    if str_eq password ""
    then s
    else destroy_all_sessions_for id (
        change_user id
          (λ u. record u { password_hash = h.hash password; must_change_password = false }) s)

pub update_user : Hashes → String → UserPatch → AuthUser → Store → Result Bool × Store
unfolding new_roles
update_user h id patch current s = elim (find_user id s.users) [
  | none ↦ (fail 404, s)
  | some row ↦
      if deactivates patch.is_active && str_eq row.id current.id
      then (fail 400, s)
      else elim (new_roles patch row current s) [
        | fail status ↦ (fail status, s)
        | ok roles ↦ (
          ok true,
          patch_password h patch.password id (
              patch_active patch.is_active id (change_user id (λ u. record u { roles = roles }) s)),
        )
      ]
]

pub delete_user : String → AuthUser → Store → Result Bool × Store
delete_user id current s =
    if str_eq id current.id then (fail 400, s) else elim (find_user id s.users) [
      | none ↦ (fail 404, s)
      | some row ↦ (
        ok true,
        destroy_all_sessions_for id (record s { users = keep (λ u. not (str_eq u.id id)) s.users }),
      )
    ]

-- A day of `expires_in_days`, and the end of the token; a time before the epoch counts as 0.
abbrev day : ℕ
day = 24 * 3600 * second

abbrev expiry : Option ℤ → ℕ → Option ℕ
expiry none now = none
expiry (some (pos days)) now = if days == 0 then none else some (now + days * day)
expiry (some (negsuc days)) now = some (now - (days + 1) * day)

pub create_my_token :
    Hashes → String → String → ℕ → Option ℤ → AuthUser → Store → Result Bool × Store
create_my_token h id plain now days user s =
    (ok true, create_api_token h id plain user.id (expiry days now) s)

pub delete_my_token : String → AuthUser → Store → Result Bool × Store
delete_my_token id user s = elim (find_token id s.tokens) [
  | none ↦ (fail 404, s)
  | some row ↦
      if not (str_eq row.user_id user.id) && not (has user "users.manage")
      then (fail 404, s)
      else (ok true, (revoke_api_token id s).1)
]
