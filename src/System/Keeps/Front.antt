-- ===== src/System/Keeps/Front.antt =====
-- Login, logout, deletion and invites of the web front end, as handlers of System/Keeps.
use drasl.Prelude.{
  sym, subst, ◌||◌, not, Bool, true, false, if◌then◌else◌, Option, none, some, [], Bytes, ◌==◌,
  Bool-cases, Option-cases, inl, inr,
}
use drasl.Flow.{stop}
use drasl.Errors.{Error, text, Result, ok, err, is_not_found, Result-cases}
use drasl.App.{App, Env, random_hex}
use drasl.Model.Types.{User}
use drasl.Model.Validate.{transient_login_eligible}
use drasl.Database.Tables.{
  Tables, Database, Statement, by_browser_token, by_username, save_user, delete_user,
}
use drasl.Auth.{hash_password}
use drasl.Textures.{Disk}
use drasl.Textures.Saved.{delete_user_and_textures-tables}
use drasl.Front.Types.{
  Page, Site, Handler, Visit, Cookie, set_cookie, refuse, try, check, call, browser_token,
  success_message, clear_browser_token, redirect, silent,
}
use drasl.Front.Access.{
  get_return_url, no_user, with_browser_authentication, with_browser_admin, logged_in,
}
use drasl.Front.Quiet.{IsQuiet}
use drasl.Front.Login.{
  front_login_url, find_login, refuse_if, front_login, front_logout, target_user, is_self,
  delete_target, clear_if, front_delete_user,
}
use drasl.System.Keeps.{IsKept, SavesNoClient, Keeps, bind-Keeps, pure-Keeps, if-Keeps}

module _ (db : Database) (P : Tables → Type 0) (kept : IsKept db P) where
  abbrev pub On : Site → Type 0
  On s = P s.tables

  pub quiet-Keeps : {A : Type 0} (m : Handler A) → IsQuiet m → Keeps On m
  quiet-Keeps m quiet = record {
    keep = λ s p. elim (quiet s) [
      | inl (a, e) ↦ rw e p
      | inr (page, s', e, tables, session) ↦ rw (e, tables) p
    ];
  }

  pub set_cookie-Keeps : (cookie : Cookie) → Keeps On (set_cookie cookie)
  set_cookie-Keeps cookie = record { keep = λ s p. p }

  pub refuse-Keeps :
      {A : Type 0} (message : Error) (url : Bytes) → Keeps On (refuse {A = A} message url)
  refuse-Keeps message url = record { keep = λ s p. p }

  refuse_if-Keeps :
      (test : Bool) (message : Error) (url : Bytes) → Keeps On (refuse_if test message url)
  refuse_if-Keeps true message url = record { keep = λ s p. p }
  refuse_if-Keeps false message url = record { keep = λ s p. p }

  pub try-Keeps : {A : Type 0} (r : Result A) → Keeps On (try r)
  try-Keeps (ok a) = record { keep = λ s p. p }
  try-Keeps (err e) = record { keep = λ s p. p }

  pub check-Keeps : (e : Option Error) → Keeps On (check e)
  check-Keeps none = record { keep = λ s p. p }
  check-Keeps (some e) = record { keep = λ s p. p }

  pub call-Keeps : (s : Statement) → SavesNoClient s → Keeps On (call (db.exec s))
  call-Keeps st no_client = record { keep = λ s p. kept.exec_keeps st no_client s.tables p }

  find_login-Keeps : (username url : Bytes) → Keeps On (find_login db username url)
  find_login-Keeps username url = record {
    keep = λ s p. elim (Result-cases (db.first_user (by_username username) s.tables)) [
      | inl (u, e) ↦ rw (find_login, e) p
      | inr (e, q) ↦
          rw (find_login, q)
            (elim (Bool-cases (is_not_found e)) [ inl y ↦ rw y p | inr n ↦ rw n p ])
    ];
  }

  pub front_login-Keeps :
      (app : App) (env : Env) (visit : Visit) (username password : Bytes)
      → Keeps On (front_login app env db visit username password)
  unfolding front_login
  front_login-Keeps app env visit username password =
      let url = get_return_url app visit in
      bind-Keeps On _ _
        (refuse_if-Keeps (transient_login_eligible app username)
          (text "Transient accounts cannot access the web interface.") url)
        λ _. bind-Keeps On _ _ (find_login-Keeps username url) λ user.
          bind-Keeps On _ _ (refuse_if-Keeps user.is_locked (text "Account is locked.") url) λ _.
            bind-Keeps On _ _ (try-Keeps (hash_password app password user.password_salt))
              λ password_hash.
                bind-Keeps On _ _
                  (refuse_if-Keeps (not (password_hash == user.password_hash))
                    (text "Incorrect password!") url)
                  λ _. bind-Keeps On _ _ (try-Keeps (random_hex env 32)) λ token.
                    bind-Keeps On _ _ (set_cookie-Keeps (browser_token token)) λ _.
                      bind-Keeps On _ _
                        (call-Keeps (save_user (record user { browser_token = some token })) tt)
                        λ _. pure-Keeps On (redirect (front_login_url app))

  pub stop-Keeps : {A : Type 0} (page : Page) → Keeps On (stop {S = Site} {R = Page} {A = A} page)
  stop-Keeps page = record { keep = λ s p. p }

  no_user-Keeps :
      (e : Error) (require_login : Bool) (url : Bytes) (f : Option User → Handler Page)
      → Keeps On (f none)
      → Keeps On (no_user e require_login url f)
  no_user-Keeps e require_login url f keeps =
      if-Keeps On (is_not_found e) _ _
        (if-Keeps On require_login _ _
          (bind-Keeps On _ _ (set_cookie-Keeps clear_browser_token)
            λ _. refuse-Keeps (text "You are not logged in.") url)
          keeps)
        (stop-Keeps silent)

  pub with_browser_authentication-Keeps :
      (app : App) (require_login : Bool) (visit : Visit) (f : Option User → Handler Page)
      → ((user : Option User) → Keeps On (f user))
      → Keeps On (with_browser_authentication app db require_login visit f)
  unfolding with_browser_authentication
  with_browser_authentication-Keeps app require_login visit f keeps = record {
    keep = λ s p.
        let url = get_return_url app visit in
        let no_one =
          if-Keeps On require_login (refuse (text "You are not logged in.") url) (f none)
            (refuse-Keeps (text "You are not logged in.") url) (keeps none) in
        elim (Option-cases visit.browser_token) [
          | inl e ↦ rw (with_browser_authentication, e) (no_one.keep s p)
          | inr (value, e) ↦ elim (Bool-cases (value == [])) [
            | inl blank ↦ rw (with_browser_authentication, e) (rw blank (no_one.keep s p))
            | inr set ↦ elim (Result-cases (db.first_user (by_browser_token value) s.tables)) [
              | inl (user, q) ↦
                  rw (with_browser_authentication, e) (rw (set, q) ((keeps (some user)).keep s p))
              | inr (e', q) ↦
                  rw (with_browser_authentication, e)
                    (rw (set, q) ((no_user-Keeps e' require_login url f (keeps none)).keep s p))
            ]
          ]
        ];
  }

  pub logged_in-Keeps :
      (f : User → Handler Page)
      → ((user : User) → Keeps On (f user))
      → (user : Option User) → Keeps On (logged_in f user)
  logged_in-Keeps f keeps none = record { keep = λ s p. p }
  logged_in-Keeps f keeps (some user) = keeps user

  pub with_browser_admin-Keeps :
      (app : App) (visit : Visit) (f : User → Handler Page)
      → ((user : User) → Keeps On (f user))
      → Keeps On (with_browser_admin app db visit f)
  unfolding with_browser_admin
  with_browser_admin-Keeps app visit f keeps =
      let url = get_return_url app visit in
      let may = λ (user : User).
        if user.is_admin then f user else refuse (text "You are not an admin.") url in
      with_browser_authentication-Keeps app true visit (logged_in may) (
        logged_in-Keeps may λ user.
          if-Keeps On user.is_admin (f user) (refuse (text "You are not an admin.") url)
            (keeps user) (refuse-Keeps (text "You are not an admin.") url))

  pub front_logout-Keeps : (app : App) (visit : Visit) → Keeps On (front_logout app db visit)
  unfolding front_logout
  front_logout-Keeps app visit = with_browser_authentication-Keeps app true visit _ (
      logged_in-Keeps _ λ user. bind-Keeps On _ _ (set_cookie-Keeps clear_browser_token) λ _.
        bind-Keeps On _ _ (call-Keeps (save_user (record user { browser_token = none })) tt)
          λ _. pure-Keeps On (redirect app.front_end_url))

  pub target_user-Keeps :
      (app : App) (user : User) (username url : Bytes)
      → Keeps On (target_user app db user username url)
  target_user-Keeps app user username url = record {
    keep = λ s p. elim (Bool-cases (username == [] || username == user.username)) [
      | inl own ↦ rw own p
      | inr other ↦ elim (Bool-cases user.is_admin) [
        | inr no_admin ↦ rw (other, no_admin) p
        | inl admin ↦ elim (Result-cases (db.first_user (by_username username) s.tables)) [
          | inr (e, q) ↦ rw (other, admin, q) p
          | inl (target, q) ↦ rw (other, admin, q) p
        ]
      ]
    ];
  }

  delete_target-Keeps : (disk : Disk) (target : User) → Keeps On (delete_target db disk target)
  delete_target-Keeps disk target = record {
    keep = λ s p.
        subst P (sym (delete_user_and_textures-tables db disk target s.world))
          (kept.exec_keeps (delete_user target.uuid) tt s.tables p);
  }

  clear_if-Keeps : (test : Bool) → Keeps On (clear_if test)
  clear_if-Keeps true = record { keep = λ s p. p }
  clear_if-Keeps false = record { keep = λ s p. p }

  pub front_delete_user-Keeps :
      (app : App) (disk : Disk) (visit : Visit) (username : Bytes)
      → Keeps On (front_delete_user app db disk visit username)
  unfolding front_delete_user
  front_delete_user-Keeps app disk visit username =
      let url = get_return_url app visit in
      with_browser_authentication-Keeps app true visit _ (
        logged_in-Keeps _ λ user.
          bind-Keeps On _ _ (target_user-Keeps app user username url) λ target.
            bind-Keeps On _ _ (delete_target-Keeps disk target) λ _.
              bind-Keeps On _ _ (clear_if-Keeps (is_self user username)) λ _.
                bind-Keeps On _ _ (set_cookie-Keeps (success_message (text "Account deleted")))
                  λ _. pure-Keeps On (redirect url))
