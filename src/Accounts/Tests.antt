-- ===== src/Accounts/Tests.antt =====
-- The theorems on accounts at concrete inputs.
use mathlib.Core.Path.{subst}
use holypipe.Prelude.{◌≡◌, refl, String, true, false, some, [], ◌∷◌, arith, str_eq}
use holypipe.Auth.{
  permissions_of, User, Store, Hashes, AuthUser, verify_password, find_user, load_auth_user,
  create_session, destroy_all_sessions_for, auth_user_from,
}
use holypipe.Auth.Throttle.{check}
use holypipe.Accounts.{UserPatch, update_user, find_username, login, change_password}
use holypipe.Accounts.Admins.{StandsIn, update_user-StandsIn}
use holypipe.Accounts.Login.{login-load_auth_user, change_password-load_auth_user}

abbrev plain : Hashes
plain = record { hash = λ s. s; check = λ s t. some (str_eq s t); digest = λ s. s }

abbrev ann : User
ann = record {
  id = "u1";
  username = "ann";
  password_hash = "secret12";
  is_active = true;
  must_change_password = false;
  roles = "r1" ∷ [];
}

abbrev s : Store
s = record {
  roles =
      record { id = "r1"; name = "Viewer"; permissions = "logs.view" ∷ []; is_builtin = false }
      ∷ [];
  users = ann ∷ [];
  sessions = record { token = "t0"; user_id = "u1"; expires_at = 50 } ∷ [];
  tokens = [];
}

abbrev ann_user : AuthUser
ann_user = record {
  id = "u1";
  username = "ann";
  must_change_password = false;
  permissions = "logs.view" ∷ [];
}

keyed : (row : User) → find_username "ann" s.users ≡ some row → find_user row.id s.users ≡ some row
keyed row found =
    let same : ann ≡ row = cc in subst (λ (r : User). find_user r.id s.users ≡ some r) same refl

login-load_auth_user_example :
    ((check "ann" 3 []).0 ≡ true)
    × (row : User) × (find_username "ann" s.users ≡ some row)
    × (row.is_active ≡ true)
    × (verify_password plain "secret12" row.password_hash ≡ true)
    × ((load_auth_user "t1" 9 (login plain "t1" 3 "ann" "secret12" [] s).store).0 ≡ some ann_user)
unfolding login check verify_password auth_user_from permissions_of
login-load_auth_user_example =
    login-load_auth_user plain "t1" 3 9 "ann" "secret12" [] s ann_user keyed refl (omega arith)

change_password-load_auth_user_example : ◌≡◌ {A = String} "t1" "t1"
unfolding change_password verify_password load_auth_user create_session destroy_all_sessions_for
change_password-load_auth_user_example =
    change_password-load_auth_user plain "t1" "t1" 3 9 "secret12" "secret34" ann_user ann_user s
      refl refl refl

abbrev patch : UserPatch
patch = record { role_ids = some ("r1" ∷ []); is_active = some false; password = some "secret34" }

update_user-StandsIn_example : StandsIn "u1" (update_user plain "u1" patch ann_user s).1.users
update_user-StandsIn_example = update_user-StandsIn plain "u1" patch ann_user s (ann, refl, refl)
