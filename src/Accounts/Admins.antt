-- ===== src/Accounts/Admins.antt =====
-- Users cannot lock themselves out.
use holypipe.Prelude.{
  ℕ, ◌≡◌, ◌∙◌, ◌⊎◌, ◌&&◌, refl, sym, ap, String, Bool, true, false, Option, none, some, inl, inr,
  List, [], ◌∷◌, map, arith, str_eq, eq_iff, Bool-cases, Option-cases, if◌then◌else◌,
}
use holypipe.Auth.{
  User, Store, Hashes, AuthUser, Result, ok, fail, destroy_all_sessions_for, find_user,
}
use holypipe.Accounts.{
  UserPatch, change_user, deactivates, active_after, patch_active, patch_password, new_roles,
  update_user,
}

-- A user with an id is there, and active.
abbrev pub StandsIn : String → List User → Type 0
StandsIn id users = (row : User) × (find_user id users ≡ some row) × (row.is_active ≡ true)

-- A change of one row that keeps ids, and keeps the user `k` active.
record IsMild (id k : String) (f : User → User) : Type 0 where
  keeps : (row : User) → (f row).id ≡ row.id
  stays :
      (row : User)
      → str_eq row.id id ≡ true
      → str_eq row.id k ≡ true
      → row.is_active ≡ true
      → (f row).is_active ≡ true

module _ (id k : String) (f : User → User) (mild : IsMild id k f) where
  abbrev changed : User → User
  changed row = if str_eq row.id id then f row else row

  changed-id : (row : User) → (changed row).id ≡ row.id
  changed-id row = elim (Bool-cases (str_eq row.id id)) [
    | inl here ↦ simp here (mild.keeps row)
    | inr other ↦ simp other
  ]

  changed-active :
      (row : User) → str_eq row.id k ≡ true → row.is_active ≡ true → (changed row).is_active ≡ true
  changed-active row is_k on = elim (Bool-cases (str_eq row.id id)) [
    | inl here ↦ simp here (mild.stays row here is_k on)
    | inr other ↦ simp other on
  ]

  map-StandsIn : (users : List User) → StandsIn k users → StandsIn k (map changed users)
  map-StandsIn [] (row, found, on) = absurd (cc found)
  map-StandsIn (x ∷ users) (row, found, on) = elim (Bool-cases (str_eq x.id k)) [
    | inl hit ↦ (changed x, simp (changed-id x, hit), changed-active x hit (ground arith))
    | inr miss ↦
        let (row', found', on') = map-StandsIn users (row, simp miss at found, on) in
        (row', simp (changed-id x, miss) found', on')
  ]

find_user-id :
    (id : String) (users : List User) (row : User) → find_user id users ≡ some row → row.id ≡ id
find_user-id id [] row e = cc
find_user-id id (x ∷ users) row e = elim (Bool-cases (str_eq x.id id)) [
  | inl hit ↦
      let same : x ≡ row = ground arith in
      ap (λ (u : User). u.id) (sym same) ∙ (eq_iff x.id id).0 hit
  | inr miss ↦ find_user-id id users row (simp miss at e)
]

active_after_lem : (o : Option Bool) → deactivates o ≡ false → active_after o true ≡ true
active_after_lem none e = refl
active_after_lem (some true) e = refl
active_after_lem (some false) e = cc

destroy_all-StandsIn :
    (id k : String) (s : Store)
    → StandsIn k s.users
    → StandsIn k (destroy_all_sessions_for id s).users
unfolding destroy_all_sessions_for
destroy_all-StandsIn id k s stands = stands

Result-cases :
    {A : Type 0} (r : Result A) → ((status : ℕ) × (r ≡ fail status)) ⊎ (a : A) × (r ≡ ok a)
Result-cases (ok a) = inr (a, refl)
Result-cases (fail status) = inl (status, refl)

patch_password-StandsIn :
    (h : Hashes) (password : Option String) (id k : String) (s : Store)
    → StandsIn k s.users
    → StandsIn k (patch_password h password id s).users
patch_password-StandsIn h none id k s stands = stands
patch_password-StandsIn h (some password) id k s stands = elim (Bool-cases (str_eq password "")) [
  | inl empty ↦ simp empty stands
  | inr given ↦ simp given (
      destroy_all-StandsIn id k _ (
        map-StandsIn id k
          (λ u. record u { password_hash = h.hash password; must_change_password = false })
          (record { keeps = λ row. refl; stays = λ row a b on. on }) s.users stands))
]

patch_active-StandsIn :
    (is_active : Option Bool) (id k : String) (s : Store)
    → (str_eq id k ≡ true → deactivates is_active ≡ false)
    → StandsIn k s.users
    → StandsIn k (patch_active is_active id s).users
patch_active-StandsIn is_active id k s guarded stands =
    let f : User → User = λ u. record u { is_active = active_after is_active u.is_active } in
    let mild : IsMild id k f = record {
      keeps = λ row. refl;
      stays = λ row here is_k on.
          ap (active_after is_active) on
          ∙ active_after_lem is_active (
              guarded (ground (arith, eq_iff row.id id, eq_iff row.id k, eq_iff id k, here, is_k)));
    } in
    let s' = change_user id f s in
    let stands' = map-StandsIn id k f mild s.users stands in
    elim (Bool-cases (deactivates is_active)) [
      | inl off ↦ simp off (destroy_all-StandsIn id k s' stands')
      | inr on ↦ simp on stands'
    ]

-- Whatever a user patches, of their own row or of another: they stay, and stay active.
pub update_user-StandsIn :
    (h : Hashes) (id : String) (patch : UserPatch) (current : AuthUser) (s : Store)
    → StandsIn current.id s.users
    → StandsIn current.id (update_user h id patch current s).1.users
unfolding update_user
update_user-StandsIn h id patch current s stands = elim (Option-cases (find_user id s.users)) [
  | inl missing ↦ rw (missing, update_user) stands
  | inr (row, found) ↦ elim (Bool-cases (deactivates patch.is_active && str_eq row.id current.id)) [
    | inl own ↦ rw (found, own, update_user) stands
    | inr fair ↦ elim (Result-cases (new_roles patch row current s)) [
      | inl (status, refused) ↦ rw (found, fair, refused, update_user) stands
      | inr (roles, given) ↦
          rw (found, fair, given, update_user)
            (patch_password-StandsIn h patch.password id current.id _ (
              patch_active-StandsIn patch.is_active id current.id _
                (λ own. ground (
                  arith,
                  find_user-id id s.users row found,
                  own,
                  fair,
                  eq_iff row.id current.id,
                  eq_iff id current.id,
                ))
                (map-StandsIn id current.id (λ u. record u { roles = roles })
                  (record { keeps = λ u. refl; stays = λ u a b on. on }) s.users stands)))
    ]
  ]
]
