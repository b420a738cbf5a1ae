-- ===== src/Accounts/Login.antt =====
-- Sessions after a login and after a change of the password.
use holypipe.Prelude.{
  ℕ, ◌+◌, ◌≡◌, ◌≤◌, ◌∙◌, sym, ap, String, true, false, ◌&&◌, Option, none, some, inl, inr, arith,
  ltb, str_eq, eq_iff, Bool-cases, Option-cases,
}
use holypipe.Auth.{
  User, Store, Hashes, AuthUser, ok, auth_user_from, active_user, verify_password, session_ttl,
  destroy_all_sessions_for, load_auth_user, find_user,
}
use holypipe.Auth.Throttle.{Failures, check}
use holypipe.Auth.Revocation.{
  load_auth_user-create, load_auth_user-create_other, load_auth_user-destroy_all,
}
use holypipe.Accounts.{find_username, accepts, login, change_user, change_password}

accepts_sound :
    (h : Hashes) (password : String) (o : Option User) (row : User)
    → accepts h password o ≡ some row
    → (o ≡ some row)
      × (row.is_active ≡ true)
      × (verify_password h password row.password_hash ≡ true)
accepts_sound h password none row e = cc
accepts_sound h password (some user) row e =
    elim (Bool-cases (user.is_active && verify_password h password user.password_hash)) [
      | inl accepted ↦ ground arith
      | inr refused ↦ absurd (ground arith)
    ]

active_user_lem :
    (s : Store) (o : Option User) (row : User)
    → o ≡ some row
    → row.is_active ≡ true
    → active_user s o ≡ some (auth_user_from s row)
active_user_lem s o row e on = rw e (simp on)

ok_injective : {A : Type 0} (a b : A) → ok a ≡ ok b → a ≡ b
ok_injective a b e = cc

-- Where no other row has the id of the row with the name: a login that succeeds was not throttled,
-- and gave the password of an active user; until it expires, the new session stands for the user
-- that the answer names, with the answer's permissions.
pub login-load_auth_user :
    (h : Hashes) (token : String) (now at : ℕ) (username password : String) (f : Failures)
    (s : Store) (u : AuthUser)
    → ((row : User)
        → find_username username s.users ≡ some row
        → find_user row.id s.users ≡ some row)
    → (login h token now username password f s).result ≡ ok u
    → at ≤ now + session_ttl
    → ((check username now f).0 ≡ true)
      × (row : User) × (find_username username s.users ≡ some row)
      × (row.is_active ≡ true)
      × (verify_password h password row.password_hash ≡ true)
      × ((load_auth_user token at (login h token now username password f s).store).0 ≡ some u)
unfolding login
login-load_auth_user h token now at username password f s u keyed e fresh =
    elim (Bool-cases (check username now f).0) [
      | inr throttled ↦ absurd (cc (rw (throttled, login) at e))
      | inl allowed ↦ elim (Option-cases (accepts h password (find_username username s.users))) [
        | inl refused ↦ absurd (ground (arith, rw (allowed, refused, login) at e))
        | inr (row, accepted) ↦
            let late : ltb (now + session_ttl) at ≡ false = ground arith in
            let (found, active, verified) = accepts_sound h password _ row accepted in
            let answer : auth_user_from s row ≡ u =
              ok_injective _ _ (rw (allowed, accepted, login) at e) in
            (
              allowed,
              row,
              found,
              active,
              verified,
              rw (allowed, accepted, login)
                  (load_auth_user-create token row.id now at s
                    ∙ (rw late (active_user_lem s _ row (keyed row found) active))
                    ∙ ap some answer),
            )
      ]
    ]

-- After a change of the password, no session but the new one stands for the user.
pub change_password-load_auth_user :
    (h : Hashes) (token t : String) (now at : ℕ) (old new : String) (user u : AuthUser) (s : Store)
    → (change_password h token now old new user s).0 ≡ ok true
    → (load_auth_user t at (change_password h token now old new user s).1).0 ≡ some u
    → u.id ≡ user.id
    → t ≡ token
unfolding change_password
change_password-load_auth_user h token t now at old new user u s e loaded same =
    elim (Option-cases (find_user user.id s.users)) [
      | inl gone ↦ absurd (ground arith)
      | inr (row, found) ↦ elim (Bool-cases (verify_password h old row.password_hash)) [
        | inl right ↦ elim (Bool-cases (str_eq token t)) [
          | inl mine ↦ sym ((eq_iff token t).0 mine)
          | inr other ↦
              let s' =
                change_user user.id
                  (λ u. record u { password_hash = h.hash new; must_change_password = false }) s in
              let before =
                sym (
                  load_auth_user-create_other token t user.id now at
                    (destroy_all_sessions_for user.id s') other)
                ∙ (rw (found, right, change_password) at loaded) in
              absurd (load_auth_user-destroy_all user.id t at s' u before same)
        ]
        | inr wrong ↦ absurd (ground arith)
      ]
    ]
