-- ===== src/Auth.antt =====
-- auth.py: users, roles, sessions, API tokens, and who the caller of a request is. A call is
-- given the time that `utcnow()` returns in it. Hash functions and random tokens come from
-- outside: `Hashes` has the functions, and a fresh token or id is an argument.
pub mod Throttle
pub mod Callers
pub mod Header
pub mod Revocation
mod Tests
use holypipe.Prelude.{
  ℕ, ◌+◌, ◌*◌, String, Bool, true, false, not, ◌&&◌, ◌||◌, Option, none, some, List, [], ◌∷◌, ◌++◌,
  map, keep, contains, ltb, str_eq, if◌then◌else◌,
}
use holypipe.Models.{second}
use Header.{bearer_token}

pub record Role : Type 0 where
  pub id : String
  pub name : String
  pub permissions : List String
  pub is_builtin : Bool

-- `roles` are the ids of the rows of `user_roles` for this user.
pub record User : Type 0 where
  pub id : String
  pub username : String
  pub password_hash : String
  pub is_active : Bool
  pub must_change_password : Bool
  pub roles : List String

pub record Session : Type 0 where
  pub token : String
  pub user_id : String
  pub expires_at : ℕ

pub record ApiToken : Type 0 where
  pub id : String
  pub user_id : String
  pub token_hash : String
  pub expires_at : Option ℕ
  pub last_used_at : Option ℕ

pub record Store : Type 0 where
  pub roles : List Role
  pub users : List User
  pub sessions : List Session
  pub tokens : List ApiToken

-- bcrypt and sha256: `hash` makes a password hash, `check` compares, and raises on a malformed
-- hash, which is `none`; `digest` is the hash of an API token.
pub record Hashes : Type 0 where
  pub hash : String → String
  pub check : String → String → Option Bool
  pub digest : String → String

-- SESSION_TTL_DAYS
abbrev pub session_ttl : ℕ
session_ttl = 7 * 24 * 3600 * second

unfoldable pub verify_password : Hashes → String → String → Bool
verify_password h plain hashed = elim (h.check plain hashed) [ some b ↦ b | none ↦ false ]

-- The rows with a key.
abbrev pub find_session : String → List Session → Option Session
find_session token [] = none
find_session token (row ∷ rows) =
    if str_eq row.token token then some row else find_session token rows

abbrev pub find_user : String → List User → Option User
find_user id [] = none
find_user id (row ∷ rows) = if str_eq row.id id then some row else find_user id rows

abbrev pub find_hash : String → List ApiToken → Option ApiToken
find_hash digest [] = none
find_hash digest (row ∷ rows) =
    if str_eq row.token_hash digest then some row else find_hash digest rows

abbrev pub find_token : String → List ApiToken → Option ApiToken
find_token id [] = none
find_token id (row ∷ rows) = if str_eq row.id id then some row else find_token id rows

unfoldable pub create_session : String → String → ℕ → Store → Store
create_session token user_id now s =
    let row : Session = record {
      token = token;
      user_id = user_id;
      expires_at = now + session_ttl;
    } in
    record s { sessions = row ∷ s.sessions }

abbrev pub drop_session : String → List Session → List Session
drop_session token = keep (λ row. not (str_eq row.token token))

pub destroy_session : String → Store → Store
destroy_session token s = record s { sessions = drop_session token s.sessions }

unfoldable pub destroy_all_sessions_for : String → Store → Store
destroy_all_sessions_for user_id s = record s {
  sessions = keep (λ row. not (str_eq row.user_id user_id)) s.sessions;
}

pub record AuthUser : Type 0 where
  pub id : String
  pub username : String
  pub must_change_password : Bool
  pub permissions : List String

-- `AuthUser.has`
unfoldable pub has : AuthUser → String → Bool
has user code = contains user.permissions "*" || contains user.permissions code

-- The union over the held roles; a set, so that only membership counts.
unfoldable pub permissions_of : List Role → List String → List String
permissions_of [] held = []
permissions_of (role ∷ roles) held =
    let rest = permissions_of roles held in
    if contains held role.id then role.permissions ++ rest else rest

unfoldable pub auth_user_from : Store → User → AuthUser
unfolding permissions_of
auth_user_from s user = record {
  id = user.id;
  username = user.username;
  must_change_password = user.must_change_password;
  permissions = permissions_of s.roles user.roles;
}

-- The active user with an id.
abbrev pub active_user : Store → Option User → Option AuthUser
active_user s none = none
active_user s (some user) = if user.is_active then some (auth_user_from s user) else none

-- An expired session is deleted as it is met.
abbrev session_user : String → ℕ → Option Session → Store → Option AuthUser × Store
session_user token now none s = (none, s)
session_user token now (some row) s =
    if ltb row.expires_at now
    then (none, destroy_session token s)
    else (active_user s (find_user row.user_id s.users), s)

unfoldable pub load_auth_user : String → ℕ → Store → Option AuthUser × Store
unfolding auth_user_from destroy_session
load_auth_user token now s = session_user token now (find_session token s.sessions) s

pub create_api_token : Hashes → String → String → String → Option ℕ → Store → Store
create_api_token h id plain user_id expires_at s =
    let row : ApiToken = record {
      id = id;
      user_id = user_id;
      token_hash = h.digest plain;
      expires_at = expires_at;
      last_used_at = none;
    } in
    record s { tokens = row ∷ s.tokens }

abbrev pub drop_token : String → List ApiToken → List ApiToken
drop_token id = keep (λ row. not (str_eq row.id id))

pub revoke_api_token : String → Store → Bool × Store
revoke_api_token id s = elim (find_token id s.tokens) [
  | none ↦ (false, s)
  | some row ↦ (true, record s { tokens = drop_token id s.tokens })
]

abbrev pub is_past : Option ℕ → ℕ → Bool
is_past none now = false
is_past (some expires_at) now = ltb expires_at now

-- `row.last_used_at = utcnow()`
abbrev touch : String → ℕ → List ApiToken → List ApiToken
touch id now = map λ row. if str_eq row.id id then record row { last_used_at = some now } else row

abbrev used : ApiToken → ℕ → Option AuthUser → Store → Option AuthUser × Store
used row now none s = (none, s)
used row now (some user) s = (some user, record s { tokens = touch row.id now s.tokens })

abbrev token_user : ℕ → Option ApiToken → Store → Option AuthUser × Store
token_user now none s = (none, s)
token_user now (some row) s =
    if is_past row.expires_at now
    then (none, s)
    else used row now (active_user s (find_user row.user_id s.users)) s

unfoldable pub load_auth_user_from_api_token : Hashes → String → ℕ → Store → Option AuthUser × Store
unfolding auth_user_from
load_auth_user_from_api_token h token now s = token_user now (find_hash (h.digest token) s.tokens) s

-- The status of the HTTPException that ends a request.
pub data Result {ℓ} (A : Type ℓ) : Type ℓ where
  ok : A → Result A
  fail : ℕ → Result A

-- What a request carries: the Authorization header and the session cookie.
pub record Request : Type 0 where
  pub authorization : Option String
  pub cookie : Option String

abbrev or_401 : Option AuthUser × Store → Result AuthUser × Store
or_401 (none, s) = (fail 401, s)
or_401 (some user, s) = (ok user, s)

abbrev by_cookie : Option String → ℕ → Store → Result AuthUser × Store
by_cookie none now s = (fail 401, s)
by_cookie (some token) now s =
    if str_eq token "" then (fail 401, s) else or_401 (load_auth_user token now s)

abbrev pub bearer : Option String → Option String
bearer none = none
bearer (some header) = bearer_token header

pub get_current_user : Hashes → Request → ℕ → Store → Result AuthUser × Store
unfolding load_auth_user load_auth_user_from_api_token
get_current_user h r now s = elim (bearer r.authorization) [
  | some token ↦ or_401 (load_auth_user_from_api_token h token now s)
  | none ↦ by_cookie r.cookie now s
]

abbrev demand : String → Result AuthUser × Store → Result AuthUser × Store
demand code (fail status, s) = (fail status, s)
demand code (ok user, s) = if has user code then (ok user, s) else (fail 403, s)

pub require_permission : String → Hashes → Request → ℕ → Store → Result AuthUser × Store
unfolding get_current_user has
require_permission code h r now s = demand code (get_current_user h r now s)

-- The first start with no user: the Administrator role and the user admin.
pub seed_default_admin : Hashes → String → String → Store → Store
seed_default_admin h role_id user_id s = elim s.users [
  | (_ ∷ _) ↦ s
  | [] ↦ record s {
    roles =
        s.roles
        ++ record {
          id = role_id;
          name = "Administrator";
          permissions = "*" ∷ [];
          is_builtin = true;
        }
          ∷ [];
    users =
        record {
          id = user_id;
          username = "admin";
          password_hash = h.hash "admin";
          is_active = true;
          must_change_password = true;
          roles = role_id ∷ [];
        }
        ∷ [];
  }
]
