-- ===== src/Front/Login/Sound.antt =====
-- Who gets a session.
use drasl.Prelude.{◌≡◌, false, Option, none, some, List, [], ◌∷◌, inl, inr, arith, Bytes, eq_iff}
use drasl.Errors.{ok, Result-cases}
use drasl.Flow.{run}
use drasl.App.{App, Env, random_hex}
use drasl.Model.Types.{User}
use drasl.Model.Validate.{transient_login_eligible}
use drasl.Database.Tables.{Database, by_username, save_user}
use drasl.Front.Types.{Visit, Cookie, browser_token, Page, Site}
use drasl.Front.Login.{front_login}

-- The session of the cookies that are set, if there is one.
unfoldable pub session_of : List Cookie → Option Bytes
session_of [] = none
session_of (browser_token token ∷ cookies) = some token
session_of (_ ∷ cookies) = session_of cookies

-- From a request without cookies set yet, a login whose response sets a session is a login with the password of a stored user with that
-- name who is not locked, under a name that is not reserved for transient users; the session is the
-- random token, and what was saved is that user with the token.
pub front_login-session :
    (app : App) (env : Env) (db : Database) (visit : Visit) (username password token : Bytes)
    (s s' : Site) (page : Page)
    → s.cookies ≡ []
    → run (front_login app env db visit username password) s ≡ (page, s')
    → session_of s'.cookies ≡ some token
    → (user : User) × (transient_login_eligible app username ≡ false)
      × (db.first_user (by_username username) s.tables ≡ ok user)
      × (user.is_locked ≡ false)
      × (app.scrypt_key password user.password_salt ≡ ok user.password_hash)
      × (random_hex env 32 ≡ ok token)
      × (s'.tables ≡ (db.exec (save_user (record user { browser_token = some token })) s.tables).1)
unfolding front_login session_of
front_login-session app env db visit username password token s s' page fresh h session =
    elim (Result-cases (db.first_user (by_username username) s.tables)) [
      | inr (e, p) ↦ ground arith
      | inl (user, p) ↦ elim (Result-cases (app.scrypt_key password user.password_salt)) [
        | inr (e, q) ↦ ground arith
        | inl (hash, q) ↦ elim (Result-cases (random_hex env 32)) [
          | inr (e, r) ↦ ground arith
          | inl (token', r) ↦ (
            user,
            ground arith,
            p,
            ground arith,
            ground (arith, eq_iff hash user.password_hash),
            ground arith,
            ground arith,
          )
        ]
      ]
    ]
