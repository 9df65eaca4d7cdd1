-- ===== src/Front/Register/Steps.antt =====
-- The steps of a registration before its transaction is committed are quiet.
use drasl.Prelude.{
  refl, inl, inr, Bool, true, false, not, Option, none, some, [], ◌∷◌, Bytes, ◌==◌, Bool-cases,
  Option-cases,
}
use drasl.Errors.{Error, Result, ok, err, Result-cases, with_error, text, is_not_found}
use drasl.App.{App, Env}
use drasl.Model.Types.{User, Invite}
use drasl.Database.Tables.{Database, create_user, delete_invite}
use drasl.Front.Challenge.{validate_challenge}
use drasl.Model.Validate.{validate_username}
use drasl.Front.Login.Sound.{session_of}
use drasl.Front.Quiet.{
  IsQuiet, bind-IsQuiet, refuse-IsQuiet, check-IsQuiet, refuse_if-IsQuiet, if-IsQuiet,
}
use drasl.Front.Register.{
  Registration, accept, challenge_message, find_invite, existing_account, choose_uuid, new_account,
  find_account, taken, create_in_transaction, delete_in_transaction,
}

pub accept-IsQuiet :
    {A : Type 0} (r : Result A) (message : Error → Error) (url : Bytes)
    → IsQuiet (accept r message url)
unfolding accept
accept-IsQuiet (ok a) message url s = inl (a, refl)
accept-IsQuiet (err e) message url s = refuse-IsQuiet (message e) url s

pub find_invite-IsQuiet :
    (db : Database) (required : Bool) (code url : Bytes)
    → IsQuiet (find_invite db required code url)
unfolding find_invite session_of
find_invite-IsQuiet db false code url s = inl (none, refl)
find_invite-IsQuiet db true code url s = elim (Result-cases (db.first_invite code s.tables)) [
  | inl (invite, e) ↦ rw (find_invite, e) (inl (some invite, refl))
  | inr (e, p) ↦
      rw (find_invite, p)
        (elim (Bool-cases (is_not_found e)) [
          | inl y ↦ rw y (refuse-IsQuiet (text "Invite not found!") url s)
          | inr n ↦ rw n (inr (_, s, refl, refl, refl))
        ])
]

pub choose_uuid-IsQuiet :
    (app : App) (env : Env) (chosen url : Bytes) → IsQuiet (choose_uuid app env chosen url)
unfolding choose_uuid accept session_of
choose_uuid-IsQuiet app env chosen url s = elim (Bool-cases (chosen == [])) [
  | inl y ↦ rw y (inl (env.new_uuid, refl))
  | inr n ↦ rw n (elim (Bool-cases (not app.config.registration_new_player.allow_choosing_uuid)) [
    | inl y ↦ rw y (refuse-IsQuiet (text "Choosing a UUID is not allowed.") url s)
    | inr n' ↦ rw n' (elim (Result-cases (app.uuid_parse chosen)) [
      | inl (bytes, e) ↦ rw e (inl (app.uuid_string bytes, refl))
      | inr (e, p) ↦ rw p (refuse-IsQuiet (with_error "Invalid UUID: %s" e) url s)
    ])
  ])
]

existing_account-IsQuiet :
    (app : App) (env : Env) (db : Database) (form : Registration) (url no_invite_url : Bytes)
    → IsQuiet (existing_account app env db form url no_invite_url)
unfolding existing_account
existing_account-IsQuiet app env db form url no_invite_url =
    let existing = app.config.registration_existing_player in
    bind-IsQuiet _ _
      (refuse_if-IsQuiet (not existing.allow)
        (text "Registration from an existing account is not allowed.") url)
      λ _.
        bind-IsQuiet _ _
          (find_invite-IsQuiet db existing.require_invite form.invite_code no_invite_url)
          λ invite.
            bind-IsQuiet _ _
              (accept-IsQuiet (validate_challenge app env form.username form.challenge_token)
                (challenge_message app) url)
              λ details.
                bind-IsQuiet _ _
                  (accept-IsQuiet (validate_username app details.username)
                    (with_error "Invalid username: %s") url)
                  λ _ s. inl ((details.username, details.uuid, invite), refl)

new_account-IsQuiet :
    (app : App) (env : Env) (db : Database) (form : Registration) (url no_invite_url : Bytes)
    → IsQuiet (new_account app env db form url no_invite_url)
unfolding new_account
new_account-IsQuiet app env db form url no_invite_url =
    let new = app.config.registration_new_player in
    bind-IsQuiet _ _
      (refuse_if-IsQuiet (not new.allow)
        (text "Registration without some existing account is not allowed.") url)
      λ _.
        bind-IsQuiet _ _ (find_invite-IsQuiet db new.require_invite form.invite_code no_invite_url)
          λ invite.
            bind-IsQuiet _ _ (choose_uuid-IsQuiet app env form.uuid url)
              λ account_uuid s. inl ((form.username, account_uuid, invite), refl)

pub find_account-IsQuiet :
    (app : App) (env : Env) (db : Database) (form : Registration) (url no_invite_url : Bytes)
    → IsQuiet (find_account app env db form url no_invite_url)
unfolding find_account
find_account-IsQuiet app env db form url no_invite_url s = elim (Bool-cases form.existing_player) [
  | inl y ↦ rw (find_account, y) (existing_account-IsQuiet app env db form url no_invite_url s)
  | inr n ↦ rw (find_account, n) (new_account-IsQuiet app env db form url no_invite_url s)
]

taken-IsQuiet : (e : Error) (url : Bytes) → IsQuiet (taken e url)
unfolding taken session_of
taken-IsQuiet e url = if-IsQuiet _ _ _ (refuse-IsQuiet (text "That username is taken.") url) (
    if-IsQuiet _ _ _ (refuse-IsQuiet (text "That UUID is taken.") url)
      λ s. inr (_, s, refl, refl, refl))

pub create_in_transaction-IsQuiet :
    (db : Database) (user : User) (url : Bytes) → IsQuiet (create_in_transaction db user url)
unfolding create_in_transaction
create_in_transaction-IsQuiet db user url s =
    elim (Option-cases (db.tx_exec (create_user user) [] s.tables)) [
      | inl e ↦ rw (create_in_transaction, e) (inl (tt, refl))
      | inr (e, p) ↦ rw (create_in_transaction, p) (taken-IsQuiet e url s)
    ]

pub delete_in_transaction-IsQuiet :
    (db : Database) (user : User) (invite : Option Invite)
    → IsQuiet (delete_in_transaction db user invite)
unfolding delete_in_transaction
delete_in_transaction-IsQuiet db user none s = inl (tt, refl)
delete_in_transaction-IsQuiet db user (some invite) s =
    check-IsQuiet (db.tx_exec (delete_invite invite.code) (create_user user ∷ []) s.tables) s
