-- ===== src/System/Keeps/Accounts.antt =====
-- Registration and updates of accounts, as handlers of System/Keeps.
use drasl.Prelude.{none, some, All, true, Option, Bytes, Bool-cases, Option-cases, inl, inr}
use drasl.Errors.{text, is_error_unique_failed}
use drasl.App.{App, Env}
use drasl.Model.Types.{User, Invite}
use drasl.Database.Tables.{Tables, Database, save_user}
use drasl.Textures.{Kind, skin, cape, Disk}
use drasl.Front.Types.{Visit, redirect, Handler, success_message, browser_token}
use drasl.Front.Access.{get_return_url}
use drasl.Front.Register.{Registration, commit_registration, registration, front_register}
use drasl.Front.Register.Stages.{check_registration-IsQuiet, prepare_user-IsQuiet}
use drasl.Front.Fields.{UpdateForm, Download}
use drasl.Front.Update.{
  save_edited, replace_texture, store_texture, save_edit, update_profile, front_update,
}
use drasl.Front.Gives.{Gives}
use drasl.Front.Update.Changes.{edit_user-Gives}
use drasl.System.Keeps.{IsKept, SavesNoClient, Keeps, bind-Keeps, pure-Keeps}
use drasl.System.Keeps.Front.{
  On, quiet-Keeps, set_cookie-Keeps, check-Keeps, logged_in-Keeps,
  with_browser_authentication-Keeps, target_user-Keeps,
}
use drasl.System.Keeps.Rights.{commit-Keeps}

module _ (db : Database) (P : Tables → Type 0) (kept : IsKept db P) where
  registration-SavesNoClient :
      (user : User) (invite : Option Invite) → All SavesNoClient (registration user invite)
  registration-SavesNoClient user none = (tt, tt)
  registration-SavesNoClient user (some invite) = (tt, (tt, tt))

  pub front_register-Keeps :
      (app : App) (env : Env) (return_url : Bytes) (visit : Visit) (form : Registration)
      → Keeps (On db P kept) (front_register app env db return_url visit form)
  unfolding front_register commit_registration
  front_register-Keeps app env return_url visit form =
      let url = get_return_url app visit in
      bind-Keeps (On db P kept) _ _
        (quiet-Keeps db P kept _ (check_registration-IsQuiet app env db visit form))
        λ account.
          bind-Keeps (On db P kept) _ _
            (quiet-Keeps db P kept _ (prepare_user-IsQuiet app env db visit form url account))
            λ made.
              bind-Keeps (On db P kept) _ _
                (bind-Keeps (On db P kept) _ _
                  (commit-Keeps db P kept (registration made.0 account.2)
                    (registration-SavesNoClient made.0 account.2))
                  λ failed_commit. check-Keeps db P kept failed_commit)
                λ _.
                  bind-Keeps (On db P kept) _ _ (set_cookie-Keeps db P kept (browser_token made.1))
                    λ _. pure-Keeps (On db P kept) (redirect return_url)

  Gives-Keeps : {A : Type 0} (R : A → Type 0) (m : Handler A) → Gives R m → Keeps (On db P kept) m
  Gives-Keeps R m gives = record {
    keep = λ s p. elim (gives s) [
      | inl (a, r, e) ↦ rw e p
      | inr (page, s', e, world, session) ↦ rw (e, world) p
    ];
  }

  save_edited-Keeps :
      (url : Bytes) (edited : User) → Keeps (On db P kept) (save_edited db url edited)
  unfolding save_edited is_error_unique_failed
  save_edited-Keeps url edited = record {
    keep = λ s p.
        let after = kept.exec_keeps (save_user edited) tt s.tables p in
        elim (Option-cases (db.exec (save_user edited) s.tables).0) [
          | inl e ↦ rw (save_edited, e) after
          | inr (f, e) ↦ rw (save_edited, e) after
        ];
  }

  store_texture-Keeps :
      (kind : Kind) (disk : Disk) (url : Bytes) (old new : User) (sent : Option (Bytes × Bytes))
      → Keeps (On db P kept) (store_texture kind db disk url old new sent)
  unfolding store_texture
  store_texture-Keeps skin disk url old new sent = record {
    keep = λ s p.
        elim (Bool-cases
          (replace_texture skin db disk old.skin_hash new.skin_hash sent s.tables s.skins).0) [
            | inl y ↦ rw (store_texture, y) p
            | inr n ↦ rw (store_texture, n) p
          ];
  }
  store_texture-Keeps cape disk url old new sent = record {
    keep = λ s p.
        elim (Bool-cases
          (replace_texture cape db disk old.cape_hash new.cape_hash sent s.tables s.capes).0) [
            | inl y ↦ rw (store_texture, y) p
            | inr n ↦ rw (store_texture, n) p
          ];
  }

  pub front_update-Keeps :
      (app : App) (env : Env) (disk : Disk) (download : Download) (visit : Visit)
      (form : UpdateForm)
      → Keeps (On db P kept) (front_update app env db disk download visit form)
  unfolding front_update update_profile save_edit
  front_update-Keeps app env disk download visit form =
      let url = get_return_url app visit in
      with_browser_authentication-Keeps db P kept app true visit _ (
        logged_in-Keeps db P kept _ λ user.
          bind-Keeps (On db P kept) _ _ (target_user-Keeps db P kept app user form.username url)
            λ target.
              bind-Keeps (On db P kept) _ _
                (Gives-Keeps _ _ (edit_user-Gives app env download user form url target))
                λ edit. bind-Keeps (On db P kept) _ _ (save_edited-Keeps url edit.0) λ _.
                  bind-Keeps (On db P kept) _ _
                    (store_texture-Keeps skin disk url target edit.0 edit.1)
                    λ _.
                      bind-Keeps (On db P kept) _ _
                        (store_texture-Keeps cape disk url target edit.0 edit.2)
                        λ _.
                          bind-Keeps (On db P kept) _ _
                            (set_cookie-Keeps db P kept (success_message (text "Changes saved.")))
                            λ _. pure-Keeps (On db P kept) (redirect url))
