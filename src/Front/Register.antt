-- ===== src/Front/Register.antt =====
-- POST /register
pub mod Steps
pub mod Admitted
pub mod Stages
pub mod Atomic
use drasl.Prelude.{
  ℕ, Bool, true, false, ◌||◌, not, Option, none, some, List, [], ◌∷◌, ◌++◌, Bytes, codes, ◌==◌,
  if◌then◌else◌,
}
use drasl.Errors.{
  Error, text, with_error, Result, ok, err, is_not_found, is_error_unique_failed_field,
}
use drasl.Flow.{Exec, next, done, pure, stop, gets, ◌>>=◌, ◌>>◌}
use drasl.App.{App, Env, strip_query_param}
use drasl.Model.Types.{User, Invite}
use drasl.Model.Validate.{validate_username, validate_password}
use drasl.Database.Tables.{Tables, Database, Statement, create_user, delete_invite}
use drasl.Front.Types.{
  Visit, browser_token, Page, failed, redirect, Site, Handler, set_cookie, refuse, try, check, call,
}
use drasl.Front.Access.{get_return_url}
use drasl.Front.NewUser.{make_user}
use drasl.Front.Login.{refuse_if}
use drasl.Front.Challenge.{ProxiedAccountDetails, validate_challenge}

-- The values of the form; `email` is a trap for robots.
pub record Registration : Type 0 where
  pub username : Bytes
  pub email : Bytes
  pub password : Bytes
  pub uuid : Bytes
  pub existing_player : Bool
  pub challenge_token : Bytes
  pub invite_code : Bytes

-- `if err != nil { setErrorMessage(format, err); return redirect }`
unfoldable pub accept : {A : Type 0} → Result A → (Error → Error) → Bytes → Handler A
accept (ok a) message url = pure a
accept (err e) message url = refuse (message e) url

-- The invite of the request, where one is required.
unfoldable pub find_invite : Database → Bool → Bytes → Bytes → Handler (Option Invite)
find_invite db false invite_code no_invite_failure_url s = (next none, s)
find_invite db true invite_code no_invite_failure_url s =
    elim (db.first_invite invite_code s.tables) [
      | ok invite ↦ (next (some invite), s)
      | err e ↦
          if is_not_found e
          then refuse (text "Invite not found!") no_invite_failure_url s
          else stop (failed e) s
    ]

-- A name, a UUID, and the invite that is used up.
abbrev pub Account : Type 0
Account = Bytes × Bytes × Option Invite

abbrev pub challenge_message : App → Error → Error
challenge_message app = with_error (
    if app.config.registration_existing_player.require_skin_verification
    then "Couldn't verify your skin, maybe try again: %s"
    else "Couldn't find your account, maybe try again: %s")

-- Registration from an existing account on another server
unfoldable pub existing_account :
    App → Env → Database → Registration → Bytes → Bytes → Handler Account
unfolding find_invite accept
existing_account app env db form failure_url no_invite_failure_url = do
  let existing = app.config.registration_existing_player
  refuse_if (not existing.allow) (text "Registration from an existing account is not allowed.")
      failure_url
  invite ← find_invite db existing.require_invite form.invite_code no_invite_failure_url
  details ←
      accept (validate_challenge app env form.username form.challenge_token) (challenge_message app)
        failure_url
  accept (validate_username app details.username) (with_error "Invalid username: %s") failure_url
  pure (details.username, details.uuid, invite)

-- The UUID of a new player: the chosen one if choosing is allowed, or a random one.
unfoldable pub choose_uuid : App → Env → Bytes → Bytes → Handler Bytes
unfolding accept
choose_uuid app env chosen_uuid failure_url s =
    if chosen_uuid == []
    then (next env.new_uuid, s)
    else if not app.config.registration_new_player.allow_choosing_uuid
    then refuse (text "Choosing a UUID is not allowed.") failure_url s
    else elim (app.uuid_parse chosen_uuid) [
      | ok bytes ↦ pure (app.uuid_string bytes) s
      | err e ↦ refuse (with_error "Invalid UUID: %s" e) failure_url s
    ]

unfoldable pub new_account : App → Env → Database → Registration → Bytes → Bytes → Handler Account
unfolding find_invite choose_uuid
new_account app env db form failure_url no_invite_failure_url = do
  let new = app.config.registration_new_player
  refuse_if (not new.allow) (text "Registration without some existing account is not allowed.")
      failure_url
  invite ← find_invite db new.require_invite form.invite_code no_invite_failure_url
  account_uuid ← choose_uuid app env form.uuid failure_url
  pure (form.username, account_uuid, invite)

unfoldable pub find_account : App → Env → Database → Registration → Bytes → Bytes → Handler Account
unfolding existing_account new_account
find_account app env db form failure_url no_invite_failure_url s =
    if form.existing_player
    then existing_account app env db form failure_url no_invite_failure_url s
    else new_account app env db form failure_url no_invite_failure_url s

-- The statements of the transaction.
abbrev pub registration : User → Option Invite → List Statement
registration user none = create_user user ∷ []
registration user (some invite) = create_user user ∷ delete_invite invite.code ∷ []

unfoldable pub taken : Error → Bytes → Handler (Unit {0})
taken e failure_url =
    if is_error_unique_failed_field e (codes "users.username")
      || is_error_unique_failed_field e (codes "users.player_name")
    then refuse (text "That username is taken.") failure_url
    else if is_error_unique_failed_field e (codes "users.uuid")
    then refuse (text "That UUID is taken.") failure_url
    else stop (failed e)

-- `tx.Create(&user)`
unfoldable pub create_in_transaction : Database → User → Bytes → Handler (Unit {0})
unfolding taken
create_in_transaction db user failure_url s = elim (db.tx_exec (create_user user) [] s.tables) [
  | none ↦ (next tt, s)
  | some e ↦ taken e failure_url s
]

-- `tx.Delete(&invite)`
unfoldable pub delete_in_transaction : Database → User → Option Invite → Handler (Unit {0})
delete_in_transaction db user none s = (next tt, s)
delete_in_transaction db user (some invite) s =
    check (db.tx_exec (delete_invite invite.code) (create_user user ∷ []) s.tables) s

-- `tx.Commit()`; a return before it rolls back.
unfoldable pub commit_registration : Database → User → Option Invite → Handler (Unit {0})
commit_registration db user invite = do
  failed_commit ← call (db.commit (registration user invite))
  check failed_commit

-- From the form to the account, with everything that is refused before the database is changed.
unfoldable pub check_registration : App → Env → Database → Visit → Registration → Handler Account
unfolding accept find_account
check_registration app env db visit form = do
  let failure_url = get_return_url app visit
  no_invite_failure_url ← try (strip_query_param app failure_url (codes "invite"))
  refuse_if (not (form.email == [])) (text "You are now covered in bee stings.") failure_url
  accept (validate_username app form.username) (with_error "Invalid username: %s") failure_url
  accept (validate_password app form.password) (with_error "Invalid password: %s") failure_url
  find_account app env db form failure_url no_invite_failure_url

-- The statements of the transaction before its commit, and the user and session that they are for.
unfoldable pub prepare_user :
    App → Env → Database → Bytes → Registration → Account → Handler (User × Bytes)
unfolding create_in_transaction delete_in_transaction
prepare_user app env db failure_url form (username, account_uuid, invite) = do
  (user, token) ← try (make_user app env username account_uuid form.password)
  create_in_transaction db user failure_url
  delete_in_transaction db user invite
  pure (user, token)

-- `return_url` is "drasl/profile" of the front end, which is joined when the server starts.
unfoldable pub front_register : App → Env → Database → Bytes → Visit → Registration → Handler Page
unfolding check_registration prepare_user commit_registration
front_register app env db return_url visit form = do
  account ← check_registration app env db visit form
  (user, token) ← prepare_user app env db (get_return_url app visit) form account
  commit_registration db user account.2
  set_cookie (browser_token token)
  pure (redirect return_url)
