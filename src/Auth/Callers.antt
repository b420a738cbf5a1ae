-- ===== src/Auth/Callers.antt =====
-- Who a request is taken for, and what revokes that.
use mathlib.Core.Path.{ap₂}
use holypipe.Prelude.{
  Option-cases, Bool-cases, ℕ, ◌≤◌, ◌≡◌, refl, ap, ◌∙◌, String, Bool, true, false, ◌&&◌, ◌||◌, inl,
  inr, Option, none, some, List, [], ◌∷◌, ◌++◌, arith, eq_iff, any, contains, contains-append, ltb,
  str_eq,
}
use holypipe.Auth.{
  Role, User, Session, ApiToken, Store, Hashes, AuthUser, Request, ok, find_session, find_user,
  find_hash, has, permissions_of, auth_user_from, load_auth_user, load_auth_user_from_api_token,
  bearer, is_past, used, active_user, session_user, token_user, or_401, by_cookie, get_current_user,
}

-- The caller has an active user's row, and what the roles of that row grant.
pub record IsActiveUser (s : Store) (u : AuthUser) : Type 0 where
  pub row : User
  pub found : find_user u.id s.users ≡ some row
  pub active : row.is_active ≡ true
  pub granted : u ≡ auth_user_from s row

find_user_id :
    (id : String) (rows : List User) (row : User) → find_user id rows ≡ some row → row.id ≡ id
find_user_id id [] row e = cc
find_user_id id (x ∷ rows) row e = ground (arith, find_user_id id rows row, eq_iff x.id id)

active_user-IsActiveUser :
    (s : Store) (id : String) (o : Option User) (u : AuthUser)
    → find_user id s.users ≡ o
    → active_user s o ≡ some u
    → IsActiveUser s u × (u.id ≡ id)
active_user-IsActiveUser s id none u found e = cc
active_user-IsActiveUser s id (some row) u found e = elim (Bool-cases row.is_active) [
  | inl active ↦
      let granted : u ≡ auth_user_from s row = ground arith in
      let same : u.id ≡ id =
        ap (λ v. v.id) granted ∙ (unfold auth_user_from in find_user_id id s.users row found) in
      (record { row = row; found = rw same found; active = active; granted = granted }, same)
  | inr inactive ↦ ground arith
]

-- What a request was let in by: a bearer token that is stored and not expired, or, where it bears
-- none, the token of a session that is not over.
pub data Credential (h : Hashes) (r : Request) (now : ℕ) (s : Store) (id : String) : Type 0 where
  by_token :
      (token : String) (row : ApiToken)
      → bearer r.authorization ≡ some token
      → find_hash (h.digest token) s.tokens ≡ some row
      → is_past row.expires_at now ≡ false
      → id ≡ row.user_id
      → Credential h r now s id
  by_session :
      (token : String) (row : Session)
      → bearer r.authorization ≡ none
      → r.cookie ≡ some token
      → find_session token s.sessions ≡ some row
      → now ≤ row.expires_at
      → id ≡ row.user_id
      → Credential h r now s id

pub session_user_sound :
    (token : String) (now : ℕ) (o : Option Session) (s : Store) (u : AuthUser)
    → (session_user token now o s).0 ≡ some u
    → (row : Session) × (o ≡ some row)
      × (now ≤ row.expires_at)
      × IsActiveUser s u
      × (u.id ≡ row.user_id)
session_user_sound token now none s u e = cc
session_user_sound token now (some row) s u e = elim (Bool-cases (ltb row.expires_at now)) [
  | inl over ↦ ground arith
  | inr on ↦
      let (active, same) = active_user-IsActiveUser s row.user_id _ u refl (ground arith) in
      (row, refl, ground arith, active, same)
]

used_user : (row : ApiToken) (now : ℕ) (o : Option AuthUser) (s : Store) → (used row now o s).0 ≡ o
used_user row now none s = refl
used_user row now (some u) s = refl

or_401-ok : (p : Option AuthUser × Store) (u : AuthUser) → (or_401 p).0 ≡ ok u → p.0 ≡ some u
or_401-ok (none, s) u e = cc
or_401-ok (some v, s) u e = cc

pub token_user_sound :
    (now : ℕ) (o : Option ApiToken) (s : Store) (u : AuthUser)
    → (token_user now o s).0 ≡ some u
    → (row : ApiToken) × (o ≡ some row)
      × (is_past row.expires_at now ≡ false)
      × IsActiveUser s u
      × (u.id ≡ row.user_id)
token_user_sound now none s u e = cc
token_user_sound now (some row) s u e = elim (Bool-cases (is_past row.expires_at now)) [
  | inl over ↦ ground arith
  | inr on ↦
      let (active, same) =
        active_user-IsActiveUser s row.user_id _ u refl
          (ground (arith, used_user row now (active_user s (find_user row.user_id s.users)) s)) in
      (row, refl, on, active, same)
]

by_cookie_sound :
    (h : Hashes) (r : Request) (now : ℕ) (s : Store) (u : AuthUser) (cookie : Option String)
    → bearer r.authorization ≡ none
    → r.cookie ≡ cookie
    → (by_cookie cookie now s).0 ≡ ok u
    → IsActiveUser s u × Credential h r now s u.id
by_cookie_sound h r now s u none no_bearer c e = cc
by_cookie_sound h r now s u (some token) no_bearer c e = elim (Bool-cases (str_eq token "")) [
  | inl empty ↦ ground arith
  | inr given ↦
      let loaded = or_401-ok (load_auth_user token now s) u (ground arith) in
      let (row, found, on, active, same) =
        session_user_sound token now (find_session token s.sessions) s u
          (unfold load_auth_user in loaded) in
      (active, by_session token row no_bearer c found on same)
]

-- A request that is let in has a credential that stands, of an active user, and the permissions
-- that the roles of this user's row grant at that moment.
pub get_current_user_sound :
    (h : Hashes) (r : Request) (now : ℕ) (s : Store) (u : AuthUser)
    → (get_current_user h r now s).0 ≡ ok u
    → IsActiveUser s u × Credential h r now s u.id
unfolding get_current_user
get_current_user_sound h r now s u e = elim (Option-cases (bearer r.authorization)) [
  | inl no_bearer ↦ by_cookie_sound h r now s u r.cookie no_bearer refl (ground arith)
  | inr (token, bears) ↦
      let loaded = or_401-ok (load_auth_user_from_api_token h token now s) u (ground arith) in
      let (row, found, on, active, same) =
        token_user_sound now (find_hash (h.digest token) s.tokens) s u
          (unfold load_auth_user_from_api_token in loaded) in
      (active, by_token token row bears found on same)
]

any-append {ℓ} :
    {A : Type ℓ} (p : A → Bool) (xs ys : List A) → any p (xs ++ ys) ≡ (any p xs || any p ys)
any-append p [] ys = refl
any-append p (x ∷ xs) ys = ground (arith, any-append p xs ys)

contains-permissions_of :
    (roles : List Role) (held : List String) (code : String)
    → contains (permissions_of roles held) code
      ≡ any (λ role. contains held role.id && contains role.permissions code) roles
unfolding permissions_of
contains-permissions_of [] held code = refl
contains-permissions_of (role ∷ roles) held code = ground (
  arith,
  contains-permissions_of roles held code,
  contains-append role.permissions (permissions_of roles held) code,
)

-- `has` is decided by the held roles alone: one of them has the code, or the star.
pub has-auth_user_from :
    (s : Store) (user : User) (code : String)
    → has (auth_user_from s user) code ≡ (
        any (λ role. contains user.roles role.id && contains role.permissions "*") s.roles
        || any (λ role. contains user.roles role.id && contains role.permissions code) s.roles)
unfolding has auth_user_from
has-auth_user_from s user code =
    ap₂ ◌||◌ (contains-permissions_of s.roles user.roles "*")
      (contains-permissions_of s.roles user.roles code)
