-- ===== src/Front/Admin/Safe.antt =====
-- The rights of users change only where an administrator stays.
use drasl.Prelude.{
  ◌≡◌, ◌≢◌, ◌⊎◌, ◌++◌, codes, eq_iff, All, refl, ap, ◌∙◌, Bool, true, false, none, List, [], ◌∷◌,
  inl, inr, arith, Bytes, Option-cases,
}
use drasl.Errors.{Result-cases}
use drasl.Flow.{run}
use drasl.App.{App}
use drasl.Model.Types.{User}
use drasl.Database.Tables.{Tables, Database, Statement, increment_versions}
use drasl.Database.Laws.{IsLawful}
use drasl.Auth.{invalidate_user}
use drasl.Front.Types.{Visit, Page, Site}
use drasl.Util.{contains}
use drasl.Front.Admin.{
  is_default_admin, set_is_locked, should_be_admin, should_be_locked, update_user, update_all,
  any_unlocked_admins, update_users,
}

module _ (app : App) (db : Database) (form : Bytes → Bytes) (lawful : IsLawful db) where
  invalidate_user-users : (user : User) (t : Tables) → (invalidate_user db user t).1.users ≡ t.users
  unfolding invalidate_user
  invalidate_user-users user t = elim (Option-cases (db.exec (increment_versions user.uuid) t).0) [
    | inl e ↦ ap (λ (x : Tables). x.users) (lawful.exec-ok (increment_versions user.uuid) t e)
    | inr (e, p) ↦
        ap (λ (x : Tables). x.users) (lawful.exec-failed (increment_versions user.uuid) t e p)
  ]

  pub set_is_locked-users :
      (user : User) (locked : Bool) (t : Tables)
      → (set_is_locked db user locked t).2.users ≡ t.users
  unfolding set_is_locked
  set_is_locked-users user false t = refl
  set_is_locked-users user true t =
      invalidate_user-users (record user { is_locked = true; browser_token = none }) t

  pub update_user-users :
      (user : User) (pending : List Statement) (t : Tables)
      → (update_user app db form user pending t).1.users ≡ t.users
  unfolding update_user
  update_user-users user pending t =
      let kept =
        set_is_locked-users (record user { is_admin = should_be_admin app form user })
          (should_be_locked form user) t in
      ground arith

  -- The loop itself changes no user.
  pub update_all-users :
      (users : List User) (pending : List Statement) (t : Tables)
      → (update_all app db form users pending t).1.users ≡ t.users
  unfolding update_all
  update_all-users [] pending t = refl
  update_all-users (user ∷ users) pending t =
      elim (Result-cases (update_user app db form user pending t).0) [
        | inl (pending', e) ↦
            rw (update_all, e)
              (update_all-users users pending' (update_user app db form user pending t).1
                ∙ update_user-users user pending t)
        | inr (e, p) ↦ rw (update_all, p) (update_user-users user pending t)
      ]

-- The form leaves the user no administrator, or locks it. The default administrators of the
-- configuration stay administrators whatever the form says.
abbrev pub IsLeftOut : App → (Bytes → Bytes) → User → Type 0
IsLeftOut app form u =
    ((contains app.config.default_admins u.username ≡ false)
      × (form (codes "admin-" ++ u.username) ≢ codes "on"))
    ⊎ (form (codes "locked-" ++ u.username) ≡ codes "on")

any_unlocked_admins-false :
    (app : App) (form : Bytes → Bytes) (users : List User)
    → All (IsLeftOut app form) users
    → any_unlocked_admins app form users ≡ false
unfolding any_unlocked_admins is_default_admin
any_unlocked_admins-false app form [] left_out = refl
any_unlocked_admins-false app form (u ∷ users) (one, left_out) =
    let rest = any_unlocked_admins-false app form users left_out in
    let admin = eq_iff (form (codes "admin-" ++ u.username)) (codes "on") in
    let locked = eq_iff (form (codes "locked-" ++ u.username)) (codes "on") in ground arith

-- If the form leaves every stored user no administrator or locks it, where a default administrator
-- stays one, then the update of rights changes no user, whatever else it does.
pub update_users-users :
    (app : App) (db : Database) (visit : Visit) (form : Bytes → Bytes) (s s' : Site) (page : Page)
    → IsLawful db
    → All (IsLeftOut app form) s.tables.users
    → run (update_users app db visit form) s ≡ (page, s')
    → s'.tables.users ≡ s.tables.users
unfolding update_users
update_users-users app db visit form s s' page lawful left_out h =
    let none_left = any_unlocked_admins-false app form s.tables.users left_out in
    elim (Result-cases (db.find_users s.tables)) [
      | inr (e, p) ↦ ground arith
      | inl (users, p) ↦
          let all : users ≡ s.tables.users = lawful.find_users-ok s.tables users p in
          let kept = update_all-users app db form lawful users [] s.tables in
          elim (Result-cases (update_all app db form users [] s.tables).0) [
            | inr (e, q) ↦ ground arith
            | inl (pending, q) ↦ ground arith
          ]
    ]
