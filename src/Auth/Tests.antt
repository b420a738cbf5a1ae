-- ===== src/Auth/Tests.antt =====
-- The theorems on authentication at concrete inputs.
use holypipe.Prelude.{
  ℕ, ◌≡◌, refl, true, false, ◌&&◌, ◌||◌, none, some, List, [], ◌∷◌, arith, any, contains,
}
use holypipe.Auth.{
  Store, Hashes, AuthUser, Request, seed_default_admin, create_session, require_permission,
}
use holypipe.Auth.Callers.{IsActiveUser, Credential}
use holypipe.Auth.Revocation.{require_permission_sound}
use holypipe.Auth.Throttle.{Call, checks, failures, check, run, failed, check-run}

abbrev plain : Hashes
plain = record { hash = λ s. s; check = λ s t. some true; digest = λ s. s }

abbrev empty : Store
empty = record { roles = []; users = []; sessions = []; tokens = [] }

abbrev seeded : Store
seeded =
    create_session "t2" "bob" 0
      (create_session "t1" "u1" 0 (seed_default_admin plain "r1" "u1" empty))

abbrev request : Request
request = record { authorization = none; cookie = some "t1" }

abbrev admin : AuthUser
admin = record {
  id = "u1";
  username = "admin";
  must_change_password = true;
  permissions = "*" ∷ [];
}

require_permission_sound_example :
    (v : IsActiveUser seeded admin) × Credential plain request 9 seeded "u1"
    × ((any (λ role. contains v.row.roles role.id && contains role.permissions "*") seeded.roles
          || any
              (λ role. contains v.row.roles role.id && contains role.permissions "logs.view")
              seeded.roles)
        ≡ true)
unfolding require_permission create_session seed_default_admin
require_permission_sound_example =
    require_permission_sound "logs.view" plain request 9 seeded admin refl

abbrev calls : List (ℕ × Call)
calls =
    (1, failures "eve")
    ∷ (2, failures "eve")
    ∷ (3, failures "eve")
    ∷ (4, failures "eve")
    ∷ (5, checks "eve")
    ∷ (5, failures "eve")
    ∷ (6, failures "bob")
    ∷ []

check-run_example : (check "eve" 7 (run [] calls)).0 ≡ false
unfolding failed
check-run_example = check-run 0 7 calls "eve" (omega arith)
