-- ===== src/Auth.antt =====
-- auth.go: the authentication server. Each handler takes the request that `Bind` read, or its
-- error, and works on the tables.
pub mod Types
pub mod Revoke
pub mod Clients
pub mod Issue
use drasl.Prelude.{
  ℕ, ◌+◌, Bool, true, false, not, Option, none, some, List, [], ◌∷◌, ◌++◌, Bytes, ◌==◌, codes,
  if◌then◌else◌,
}
use drasl.Errors.{Error, Result, ok, err, is_not_found}
use drasl.Flow.{Flow, Exec, next, done, pure, stop, gets, guard, need, lift, ◌>>=◌, ◌>>◌}
use drasl.Http.{
  Reply, failed, json, json_error, no_content, try, check, status_ok, status_no_content,
  status_unauthorized, status_forbidden, invalid_credentials, invalid_access_token,
}
use drasl.App.{App, Env, random_hex}
use drasl.Model.Types.{User, Client, stale_policy_allow, stale_policy_deny}
use drasl.Model.Ids.{uuid_to_id}
use drasl.Model.Validate.{transient_login_eligible, make_transient_user}
use drasl.Model.Tokens.{make_access_token, get_client}
use drasl.Database.Tables.{
  Tables, Database, by_username, save_user_and_clients, create_user, save_client,
  increment_versions,
}
use Types.{
  Profile, UserResponse, AuthenticateRequest, AuthenticateResponse, RefreshRequest, RefreshResponse,
  TokenRequest, SignoutRequest,
}

-- A database call of a handler: the tables that it leaves, and its error.
abbrev pub execute :
    {B : Type 0} → (Tables → Option Error × Tables) → Exec Tables (Reply B) (Unit {0})
execute call t = (check (call t).0 (call t).1)

-- `HashPassword` of model.go
abbrev pub hash_password : App → Bytes → Bytes → Result Bytes
hash_password app password salt = app.scrypt_key password salt

abbrev pub user_response : Bool → User → Bytes → Option UserResponse
user_response request_user user id =
    if request_user
    then some
        (record { id = id; properties = (codes "preferredLanguage", user.preferred_language) ∷ [] })
    else none

-- The user of the name with its clients. A transient user who has no account yet gets one.
abbrev pub create_transient :
    App
    → Env
    → Database
    → Bytes
    → Bool
    → Exec Tables (Reply AuthenticateResponse) (User × List Client)
create_transient app env db username true = do
  user ← try (make_transient_user app env username)
  execute (db.exec (create_user user))
  pure (user, [])
create_transient app env db username false =
    stop (json_error status_unauthorized invalid_credentials)

unfoldable pub find_or_create_user :
    App
    → Env
    → Database
    → Bytes
    → Bool
    → Exec Tables (Reply AuthenticateResponse) (User × List Client)
find_or_create_user app env db username transient t =
    elim (db.first_user (by_username username) t) [
      | ok user ↦ (next (user, db.clients_of user t), t)
      | err e ↦
          if is_not_found e
          then create_transient app env db username transient t
          else (done (failed e), t)
    ]

unfoldable pub check_password :
    App → User → Bytes → Bool → Flow (Reply AuthenticateResponse) (Unit {0})
check_password app user password true =
    if password == app.config.transient_users.password
    then next tt
    else done (json_error status_unauthorized invalid_credentials)
check_password app user password false = elim (hash_password app password user.password_salt) [
  | err e ↦ done (failed e)
  | ok password_hash ↦
      if password_hash == user.password_hash
      then next tt
      else done (json_error status_unauthorized invalid_credentials)
]

abbrev pub next_version : Client → Client
next_version client = record client { version = client.version + 1 }

-- The loop over `user.Clients`: the clients that it leaves, and the one of the token. It stops at
-- that one; those before it get a new version too, unless several access tokens are allowed.
unfoldable pub touch_clients : Bool → Bytes → List Client → List Client × Option Client
touch_clients multiple client_token [] = ([], none)
touch_clients multiple client_token (client ∷ clients) =
    let (rest, found) = touch_clients multiple client_token clients in
    if client.client_token == client_token
    then (next_version client ∷ clients, some (next_version client))
    else ((if multiple then client else next_version client) ∷ rest, found)

-- A new client; saving it with its user sets the foreign key.
abbrev pub new_client : Env → User → Bytes → Client
new_client env user client_token = record {
  uuid = env.new_uuid;
  client_token = client_token;
  version = 0;
  user_uuid = user.uuid;
}

-- The client of the request, and all clients to save.
unfoldable pub choose_client :
    App → Env → User → List Client → Option Bytes → Result (List Client × Client)
unfolding touch_clients
choose_client app env user clients none = elim (random_hex env 16) [
  | err e ↦ err e
  | ok client_token ↦
      ok (clients ++ (new_client env user client_token ∷ []), new_client env user client_token)
]
choose_client app env user clients (some client_token) =
    let (touched, found) =
      touch_clients app.config.allow_multiple_access_tokens client_token clients in
    ok (elim found [
      | some client ↦ (touched, client)
      | none ↦
          (touched ++ (new_client env user client_token ∷ []), new_client env user client_token)
    ])

abbrev pub profile_of : Bytes → User → Profile
profile_of id user = record { id = id; name = user.player_name }

abbrev pub authenticate_response :
    AuthenticateRequest → User → Bytes → Client → Bytes → AuthenticateResponse
authenticate_response req user id client access_token = record {
  access_token = access_token;
  client_token = client.client_token;
  selected_profile = elim req.agent [ none ↦ none | some _ ↦ some (profile_of id user) ];
  available_profiles = elim req.agent [ none ↦ none | some _ ↦ some (profile_of id user ∷ []) ];
  user = user_response req.request_user user id;
}

-- POST /authenticate
unfoldable pub auth_authenticate :
    App
    → Env
    → Database
    → Result AuthenticateRequest
    → Exec Tables (Reply AuthenticateResponse) (Reply AuthenticateResponse)
auth_authenticate app env db bound = do
  req ← try bound
  let transient = transient_login_eligible app req.username
  (user, clients) ← find_or_create_user app env db req.username transient
  lift (check_password app user req.password transient)
  (clients', client) ← try (choose_client app env user clients req.client_token)
  execute (db.exec (save_user_and_clients user clients'))
  id ← try (uuid_to_id user.uuid)
  access_token ← try (make_access_token app env.now client)
  pure (json status_ok (authenticate_response req user id client access_token))

abbrev pub refresh_response : RefreshRequest → User → Bytes → Client → Bytes → RefreshResponse
refresh_response req user id client access_token = record {
  access_token = access_token;
  client_token = client.client_token;
  selected_profile = profile_of id user;
  available_profiles = profile_of id user ∷ [];
  user = user_response req.request_user user id;
}

-- The client of a token, if the client token of the request is its own.
abbrev pub own_client : Option (Client × User) → Bytes → Option (Client × User)
own_client none client_token = none
own_client (some (client, user)) client_token =
    if client.client_token == client_token then some (client, user) else none

-- POST /refresh
unfoldable pub auth_refresh :
    App
    → Env
    → Database
    → Result RefreshRequest
    → Exec Tables (Reply RefreshResponse) (Reply RefreshResponse)
auth_refresh app env db bound = do
  req ← try bound
  found ← gets (get_client app db env.now req.access_token stale_policy_allow)
  (client, user) ←
      need (own_client found req.client_token) (json_error status_unauthorized invalid_access_token)
  id ← try (uuid_to_id user.uuid)
  access_token ← try (make_access_token app env.now (next_version client))
  execute (db.exec (save_client (next_version client)))
  pure (json status_ok (refresh_response req user id (next_version client) access_token))

-- POST /validate
unfoldable pub auth_validate :
    App → Env → Database → Result TokenRequest → Exec Tables (Reply (Unit {0})) (Reply (Unit {0}))
auth_validate app env db bound = do
  req ← try bound
  found ← gets (get_client app db env.now req.access_token stale_policy_deny)
  need (own_client found req.client_token) (no_content status_forbidden)
  pure (no_content status_no_content)

-- `InvalidateUser` of common.go
unfoldable pub invalidate_user : Database → User → Tables → Option Error × Tables
invalidate_user db user t = db.exec (increment_versions user.uuid) t

-- POST /signout
unfoldable pub auth_signout :
    App → Env → Database → Result SignoutRequest → Exec Tables (Reply (Unit {0})) (Reply (Unit {0}))
unfolding invalidate_user
auth_signout app env db bound = do
  req ← try bound
  found ← gets (db.first_user (by_username req.username))
  user ← try found
  password_hash ← try (hash_password app req.password user.password_salt)
  guard (password_hash == user.password_hash) (json_error status_unauthorized invalid_credentials)
  execute (invalidate_user db user)
  pure (no_content status_no_content)

-- POST /invalidate
unfoldable pub auth_invalidate :
    App → Env → Database → Result TokenRequest → Exec Tables (Reply (Unit {0})) (Reply (Unit {0}))
unfolding invalidate_user
auth_invalidate app env db bound = do
  req ← try bound
  found ← gets (get_client app db env.now req.access_token stale_policy_allow)
  (client, user) ←
      need (own_client found req.client_token) (json_error status_unauthorized invalid_access_token)
  execute (invalidate_user db user)
  pure (no_content status_no_content)
