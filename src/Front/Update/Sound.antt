-- ===== src/Front/Update/Sound.antt =====
-- Whose account an update changes, and how.
use drasl.Prelude.{
  ◌≡◌, refl, ap, ◌⊎◌, inl, inr, ◌||◌, true, some, [], arith, Bytes, ◌==◌, Bool-cases, Option-cases,
}
use drasl.Errors.{is_error_unique_failed, text, Result-cases}
use drasl.Flow.{run, ◌>>=◌}
use drasl.App.{App, Env}
use drasl.Model.Types.{User}
use drasl.Database.Tables.{Database, by_browser_token, by_username, save_user, apply}
use drasl.Database.Laws.{In, IsLawful}
use drasl.Textures.{Disk, World}
use drasl.Front.Types.{Visit, Page, Site}
use drasl.Front.Access.{get_return_url, with_browser_authentication}
use drasl.Front.Access.Sound.{column-some}
use drasl.Front.Login.{target_user}
use drasl.Front.Gives.{GivesAt, Gives-run, refuse-Gives}
use drasl.Front.Update.Changes.{Changes, edit_user-Gives}
use drasl.Front.Fields.{UpdateForm, Download}
use drasl.Front.Update.{Edit, save_edit, edit_user, update_profile, front_update}

save_edit-tables :
    (db : Database) (disk : Disk) (url : Bytes) (old : User) (edit : Edit) (s s' : Site)
    (page : Page)
    → IsLawful db
    → run (save_edit db disk url old edit) s ≡ (page, s')
    → (s'.tables ≡ s.tables) ⊎ (s'.tables ≡ apply (save_user edit.0) s.tables)
unfolding save_edit is_error_unique_failed
save_edit-tables db disk url old edit s s' page lawful h =
    elim (Option-cases (db.exec (save_user edit.0) s.tables).0) [
      | inl e ↦ inr (ground (arith, lawful.exec-ok (save_user edit.0) s.tables))
      | inr (e, p) ↦ inl (ground (arith, lawful.exec-failed (save_user edit.0) s.tables e))
    ]

-- The account that a user may change: the own one, or any stored one for an administrator.
abbrev pub IsTarget : User → Site → User → Type 0
IsTarget user s target = (target ≡ user) ⊎ ((user.is_admin ≡ true) × In target s.tables.users)

target_user-GivesAt :
    (R : User → Type 0) (app : App) (db : Database) (user : User) (username url : Bytes) (s : Site)
    → IsLawful db
    → R user
    → (user.is_admin ≡ true → (target : User) → In target s.tables.users → R target)
    → GivesAt R (target_user app db user username url) s
target_user-GivesAt R app db user username url s lawful self any_of =
    elim (Bool-cases (username == [] || username == user.username)) [
      | inl own ↦ rw own (inl (user, self, refl))
      | inr other ↦ elim (Bool-cases user.is_admin) [
        | inr no_admin ↦
            rw (other, no_admin) (refuse-Gives R (text "You are not an admin.") app.front_end_url s)
        | inl admin ↦ elim (Result-cases (db.first_user (by_username username) s.tables)) [
          | inr (e, p) ↦ rw (other, admin, p) (refuse-Gives R (text "User not found.") url s)
          | inl (target, p) ↦
              let member = (lawful.first_user-ok (by_username username) s.tables target p).0 in
              let reached = any_of admin target member in
              rw (other, admin, p) (inl (target, reached, refl))
        ]
      ]
    ]

-- An edit that an update makes
pub record IsEdit (app : App) (env : Env) (visit : Visit) (form : UpdateForm) (s : Site)
    (user target edited : User) : Type 0 where
  pub member : In user s.tables.users
  pub own : (value : Bytes) × (visit.browser_token ≡ some value) × (user.browser_token ≡ some value)
  pub target_lem : IsTarget user s target
  pub changes : Changes app env user form target edited

update_profile-inverse :
    (app : App) (env : Env) (db : Database) (disk : Disk) (download : Download) (visit : Visit)
    (form : UpdateForm) (user : User) (s s' : Site) (page : Page)
    → IsLawful db
    → run (update_profile app env db disk download visit form user) s ≡ (page, s')
    → (s'.world ≡ s.world)
      ⊎ ((target : User) × (edit : Edit) × IsTarget user s target
          × Changes app env user form target edit.0
          × (run (save_edit db disk (get_return_url app visit) target edit) s ≡ (page, s')))
unfolding update_profile
update_profile-inverse app env db disk download visit form user s s' page lawful h =
    let url = get_return_url app visit in
    let edit = λ (target : User). edit_user app env download user form url target in
    let store = λ (target : User). save_edit db disk url target in
    elim (Gives-run (IsTarget user s) (target_user app db user form.username url)
      (λ target. edit target >>= store target) s s' page
      (target_user-GivesAt (IsTarget user s) app db user form.username url s lawful (inl refl)
        λ admin target member. inr (admin, member))
      h) [
        | inr (same, _) ↦ inl same
        | inl (target, is_target, h₁) ↦
            let R = λ (e : Edit). Changes app env user form target e.0 in
            elim (Gives-run R (edit target) (store target) s s' page
              (edit_user-Gives app env download user form url target s) h₁) [
                | inr (same, _) ↦ inl same
                | inl (made, changes, h₂) ↦ inr (target, made, is_target, changes, h₂)
              ]
      ]

pub front_update-inverse :
    (app : App) (env : Env) (db : Database) (disk : Disk) (download : Download) (visit : Visit)
    (form : UpdateForm) (s s' : Site) (page : Page)
    → IsLawful db
    → run (front_update app env db disk download visit form) s ≡ (page, s')
    → (s'.world ≡ s.world)
      ⊎ ((user : User) × (target : User) × (edit : Edit) × IsEdit app env visit form s user target
            edit.0
          × (run (save_edit db disk (get_return_url app visit) target edit) s ≡ (page, s')))
unfolding front_update with_browser_authentication
front_update-inverse app env db disk download visit form s s' page lawful h =
    elim (Option-cases visit.browser_token) [
      | inl e ↦ inl (ground arith)
      | inr (value, e) ↦ elim (Bool-cases (value == [])) [
        | inl blank ↦ inl (ground arith)
        | inr set ↦ elim (Result-cases (db.first_user (by_browser_token value) s.tables)) [
          | inr (err', p) ↦ inl (ground arith)
          | inl (user, p) ↦
              let (member, own) = lawful.first_user-ok (by_browser_token value) s.tables user p in
              elim (update_profile-inverse app env db disk download visit form user s s' page lawful
                (ground arith)) [
                  | inl same ↦ inl same
                  | inr (target, edit, is_target, changes, saving) ↦ inr (
                    user,
                    target,
                    edit,
                    record {
                      member = member;
                      own = (value, e, column-some user.browser_token value own);
                      target_lem = is_target;
                      changes = changes;
                    },
                    saving,
                  )
                ]
        ]
      ]
    ]

-- An update leaves the tables alone, or it saves one account: that of the stored user with the
-- session of the browser's cookie, or any stored account if that user is an administrator. What is
-- saved differs from the account by a sequence of permitted changes.
pub front_update-IsEdit :
    (app : App) (env : Env) (db : Database) (disk : Disk) (download : Download) (visit : Visit)
    (form : UpdateForm) (s s' : Site) (page : Page)
    → IsLawful db
    → run (front_update app env db disk download visit form) s ≡ (page, s')
    → (s'.tables ≡ s.tables)
      ⊎ ((user : User) × (target : User) × (edited : User) × IsEdit app env visit form s user target
            edited
          × (s'.tables ≡ apply (save_user edited) s.tables))
front_update-IsEdit app env db disk download visit form s s' page lawful h =
    elim (front_update-inverse app env db disk download visit form s s' page lawful h) [
      | inl same ↦ inl (ap (λ (w : World). w.tables) same)
      | inr (user, target, edit, is_edit, saving) ↦
          elim (save_edit-tables db disk (get_return_url app visit) target edit s s' page lawful
            saving) [ inl same ↦ inl same | inr saved ↦ inr (user, target, edit.0, is_edit, saved) ]
    ]
