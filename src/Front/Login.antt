-- ===== src/Front/Login.antt =====
-- POST /login, POST /logout and POST /delete-user.
pub mod Sound
use drasl.Prelude.{
  ◌++◌, ◌||◌, Bool, true, false, not, none, some, [], Bytes, codes, ◌==◌, if◌then◌else◌,
}
use drasl.Errors.{Error, text, Result, ok, err, is_not_found}
use drasl.Flow.{Exec, next, done, pure, stop, gets, ◌>>=◌, ◌>>◌}
use drasl.App.{App, Env, random_hex}
use drasl.Model.Types.{User}
use drasl.Model.Validate.{transient_login_eligible}
use drasl.Database.Tables.{Database, by_username, save_user}
use drasl.Auth.{hash_password}
use drasl.Textures.{Disk, World, delete_user_and_textures}
use drasl.Front.Types.{
  Visit, Cookie, browser_token, clear_browser_token, success_message, Page, failed, redirect, Site,
  Handler, set_cookie, refuse, try, call,
}
use drasl.Front.Access.{get_return_url, with_browser_authentication, logged_in}

abbrev pub front_login_url : App → Bytes
front_login_url app = app.front_end_url ++ codes "/drasl/profile"

-- `First(&user, "username = ?", username)`, with the messages of FrontLogin
abbrev pub find_login : Database → Bytes → Bytes → Handler User
find_login db username failure_url s = elim (db.first_user (by_username username) s.tables) [
  | ok user ↦ pure user s
  | err e ↦
      if is_not_found e then refuse (text "User not found!") failure_url s else stop (failed e) s
]

-- `if test { setErrorMessage; return redirect }`
abbrev pub refuse_if : Bool → Error → Bytes → Handler (Unit {0})
refuse_if test message url s = if test then refuse message url s else (next tt, s)

unfoldable pub front_login : App → Env → Database → Visit → Bytes → Bytes → Handler Page
unfolding get_return_url
front_login app env db visit username password = do
  let failure_url = get_return_url app visit
  refuse_if (transient_login_eligible app username)
      (text "Transient accounts cannot access the web interface.") failure_url
  user ← find_login db username failure_url
  refuse_if user.is_locked (text "Account is locked.") failure_url
  password_hash ← try (hash_password app password user.password_salt)
  refuse_if (not (password_hash == user.password_hash)) (text "Incorrect password!") failure_url
  token ← try (random_hex env 32)
  set_cookie (browser_token token)
  -- the error of the save is dropped
  call (db.exec (save_user (record user { browser_token = some token })))
  pure (redirect (front_login_url app))

unfoldable pub front_logout : App → Database → Visit → Handler Page
unfolding with_browser_authentication
front_logout app db visit = with_browser_authentication app db true visit (
    logged_in λ user. do
      set_cookie clear_browser_token
      call (db.exec (save_user (record user { browser_token = none })))
      pure (redirect app.front_end_url))

-- The user to delete: oneself, or for an admin any user.
abbrev pub target_user : App → Database → User → Bytes → Bytes → Handler User
target_user app db user target_username return_url s =
    if target_username == [] || target_username == user.username
    then (next user, s)
    else if not user.is_admin
    then refuse (text "You are not an admin.") app.front_end_url s
    else elim (db.first_user (by_username target_username) s.tables) [
      | ok target ↦ pure target s
      | err _ ↦ refuse (text "User not found.") return_url s
    ]

-- The pointers to the users are equal where the target is oneself.
abbrev pub is_self : User → Bytes → Bool
is_self user target_username = target_username == [] || target_username == user.username

abbrev pub delete_target : Database → Disk → User → Handler (Unit {0})
delete_target db disk target s =
    (next tt, record s { world = (delete_user_and_textures db disk target s.world).1 })

abbrev pub clear_if : Bool → Handler (Unit {0})
clear_if test s = if test then set_cookie clear_browser_token s else (next tt, s)

unfoldable pub front_delete_user : App → Database → Disk → Visit → Bytes → Handler Page
unfolding with_browser_authentication get_return_url
front_delete_user app db disk visit target_username =
    with_browser_authentication app db true visit (
      logged_in λ user. do
        let return_url = get_return_url app visit
        target ← target_user app db user target_username return_url
        delete_target db disk target
        clear_if (is_self user target_username)
        set_cookie (success_message (text "Account deleted"))
        pure (redirect return_url))
