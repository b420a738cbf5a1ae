-- ===== src/Auth/Revocation.antt =====
-- What ends a session, and what a permission check lets through.
use holypipe.Prelude.{
  inr, inl, ℕ, ◌+◌, ◌≡◌, ◌≢◌, refl, sym, ap, ◌∙◌, String, true, false, not, ◌&&◌, ◌||◌, Option,
  none, some, List, [], ◌∷◌, arith, eq_iff, keep, any, contains, ltb, str_eq, str_eq_refl,
  if◌then◌else◌, Bool-cases,
}
use holypipe.Auth.{
  Session, Store, Hashes, AuthUser, Request, Result, ok, fail, find_session, find_user,
  create_session, session_ttl, destroy_session, drop_session, destroy_all_sessions_for, has,
  auth_user_from, active_user, session_user, load_auth_user, get_current_user, demand,
  require_permission,
}
use holypipe.Auth.Callers.{
  IsActiveUser, Credential, get_current_user_sound, has-auth_user_from, session_user_sound,
}

find_session-drop :
    (token t : String) (rows : List Session)
    → find_session t (drop_session token rows)
      ≡ (if str_eq token t then none else find_session t rows)
find_session-drop token t [] = ground arith
find_session-drop token t (row ∷ rows) = ground (
  arith,
  find_session-drop token t rows,
  eq_iff row.token token,
  eq_iff row.token t,
  eq_iff token t,
)

-- Who a session's token stands for depends on the sessions only through its own row.
session_user_lem :
    (token : String) (now : ℕ) (o : Option Session) (rows : List Session) (s : Store)
    → (session_user token now o (record s { sessions = rows })).0 ≡ (session_user token now o s).0
session_user_lem token now none rows s = refl
session_user_lem token now (some row) rows s = unfold auth_user_from in ground arith

-- A logout ends its own session and no other.
load_auth_user-destroy :
    (token t : String) (now : ℕ) (s : Store)
    → (load_auth_user t now (destroy_session token s)).0
      ≡ (if str_eq token t then none else (load_auth_user t now s).0)
unfolding load_auth_user destroy_session
load_auth_user-destroy token t now s =
    session_user_lem t now _ _ s ∙ rw find_session-drop (ground (arith, eq_iff token t))

find_session-other :
    (user_id t : String) (rows : List Session) (row : Session)
    → find_session t (keep (λ r. not (str_eq r.user_id user_id)) rows) ≡ some row
    → str_eq row.user_id user_id ≡ false
find_session-other user_id t [] row e = cc
find_session-other user_id t (x ∷ rows) row e =
    ground (arith, find_session-other user_id t rows row)

-- After all sessions of a user are destroyed, no session token stands for this user.
pub load_auth_user-destroy_all :
    (user_id t : String) (now : ℕ) (s : Store) (u : AuthUser)
    → (load_auth_user t now (destroy_all_sessions_for user_id s)).0 ≡ some u
    → u.id ≢ user_id
unfolding load_auth_user destroy_all_sessions_for
load_auth_user-destroy_all user_id t now s u e same =
    let (row, found, on, active, mine) = session_user_sound t now _ _ u e in
    ground
      (arith, find_session-other user_id t s.sessions row, eq_iff row.user_id user_id, mine, same)

-- A new session stands for its user, if active, until its time is over, and for nobody after.
pub load_auth_user-create :
    (token user_id : String) (now at : ℕ) (s : Store)
    → (load_auth_user token at (create_session token user_id now s)).0
      ≡ (if ltb (now + session_ttl) at then none else active_user s (find_user user_id s.users))
unfolding load_auth_user create_session
load_auth_user-create token user_id now at s =
    unfold auth_user_from in ground (arith, str_eq_refl token)

-- A new session changes nothing for another token.
pub load_auth_user-create_other :
    (token t user_id : String) (now at : ℕ) (s : Store)
    → str_eq token t ≡ false
    → (load_auth_user t at (create_session token user_id now s)).0 ≡ (load_auth_user t at s).0
unfolding load_auth_user create_session
load_auth_user-create_other token t user_id now at s other =
    session_user_lem t at _ _ s ∙ rw other refl

demand-ok :
    (code : String) (p : Result AuthUser × Store) (u : AuthUser)
    → (demand code p).0 ≡ ok u
    → (p.0 ≡ ok u) × (has u code ≡ true)
demand-ok code (fail status, s) u e = cc
demand-ok code (ok v, s) u e = elim (Bool-cases (has v code)) [
  | inl allowed ↦ ground arith
  | inr refused ↦ ground arith
]

-- A request that passes a permission check comes, by a credential that stands, from an active
-- user one of whose roles has the code or the star.
pub require_permission_sound :
    (code : String) (h : Hashes) (r : Request) (now : ℕ) (s : Store) (u : AuthUser)
    → (require_permission code h r now s).0 ≡ ok u
    → (v : IsActiveUser s u) × Credential h r now s u.id
      × ((any (λ role. contains v.row.roles role.id && contains role.permissions "*") s.roles
            || any (λ role. contains v.row.roles role.id && contains role.permissions code) s.roles)
          ≡ true)
unfolding require_permission
require_permission_sound code h r now s u e =
    let (let_in, allowed) = demand-ok code (get_current_user h r now s) u e in
    let (active, credential) = get_current_user_sound h r now s u let_in in
    (
      active,
      credential,
      sym (has-auth_user_from s active.row code)
          ∙ ap (λ v. has v code) (sym active.granted)
          ∙ allowed,
    )
