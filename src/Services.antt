-- ===== src/Services.antt =====
-- services.go: the services API, whose handlers authenticate a user by an access token.
-- `app.CachedGet`, with the cache as it is, is a parameter.
pub mod Profile
pub mod Answers
pub mod Certificates
pub mod Keys
pub mod Names
use drasl.Prelude.{
  ℕ, ◌||◌, Bool, true, false, not, Option, none, some, List, [], ◌∷◌, ◌++◌, Bytes, codes, ◌==◌,
  nat_eq, any, if◌then◌else◌,
}
use drasl.Errors.{Error, text, with_error, Result, ok, err, is_not_found, is_error_unique_failed}
use drasl.Flow.{Exec, next, done, pure, stop, gets, guard, ◌>>=◌, ◌>>◌}
use drasl.Http.{
  Reply, failed, panicked, json, json_error, make_error_response, no_content, try, status_ok,
  status_bad_request, status_unauthorized, status_forbidden,
}
use drasl.App.{App, Env, CachedGet}
use drasl.Model.Types.{User, Client, stale_policy_allow}
use drasl.Model.Validate.{validate_player_name, is_valid_skin_model}
use drasl.Model.Tokens.{get_client}
use drasl.Database.Tables.{Tables, Database, by_player_name, save_user}
use Profile.{ServicesProfile, get_services_profile}
use drasl.Textures.{Kind, skin, cape, World, Disk, Upload, set_texture_and_save}

-- The request's path and its `Authorization` header, empty if there is none.
pub record Call : Type 0 where
  pub path : Bytes
  pub authorization : Bytes

-- The rest of a text behind a prefix
unfoldable pub strip_prefix : Bytes → Bytes → Option Bytes
strip_prefix [] s = some s
strip_prefix (p ∷ prefix) [] = none
strip_prefix (p ∷ prefix) (b ∷ s) =
    let rest = strip_prefix prefix s in if nat_eq p b then rest else none

-- The match of `^Bearer (.*)$`, whose `.` is no newline
unfoldable pub bearer_token : Bytes → Option Bytes
unfolding strip_prefix
bearer_token header = elim (strip_prefix (codes "Bearer ") header) [
  | none ↦ none
  | some token ↦ if any (nat_eq b'\n') token then none else some token
]

-- `withBearerAuthentication`; the handler works on a state that has the tables.
unfoldable pub with_bearer_authentication :
    {S A : Type 0}
    → App
    → Env
    → Database
    → (S → Tables)
    → Call
    → (User → Exec S (Reply A) (Reply A))
    → Exec S (Reply A) (Reply A)
unfolding bearer_token
with_bearer_authentication app env db tables_of req f s =
    let unauthorized =
      json_error status_unauthorized
        (record { path = some req.path; error = none; error_message = none }) in
    elim (bearer_token req.authorization) [
      | none ↦ (done unauthorized, s)
      | some access_token ↦
          elim (get_client app db env.now access_token stale_policy_allow (tables_of s)) [
            | none ↦ (done unauthorized, s)
            | some (client, user) ↦ f user s
          ]
    ]

-- `changeNameErrorResponse`: the type, which is the error too, the status in the details, and the
-- message, which is sent twice.
pub record ChangeNameErrorResponse : Type 0 where
  pub path : Bytes
  pub error_type : Bytes
  pub details : Option Bytes
  pub error_message : Error

pub data ServicesResponse : Type 0 where
  services_profile : ServicesProfile → ServicesResponse
  change_name_error : ChangeNameErrorResponse → ServicesResponse
  name_availability : Bytes → ServicesResponse

abbrev pub Service : Type 0 → Type 0
Service S = Exec S (Reply ServicesResponse) (Reply ServicesResponse)

abbrev bad_name : Call → Error → Reply ServicesResponse
bad_name req message = json status_bad_request (
    change_name_error (record {
      path = req.path;
      error_type = codes "BAD REQUEST";
      details = none;
      error_message = message;
    }))

abbrev name_taken : Call → Reply ServicesResponse
name_taken req = json status_forbidden (
    change_name_error (record {
      path = req.path;
      error_type = codes "FORBIDDEN";
      details = some (codes "DUPLICATE");
      error_message = text "That player name is taken.";
    }))

-- The user with the new name, or as it is if that is the name already.
unfoldable pub rename_user : App → Env → User → Bytes → Option User
rename_user app env user player_name =
    if user.player_name == player_name
    then some user
    else if app.config.allow_changing_player_name
    then some (record user { player_name = player_name; name_last_changed_at = env.now })
    else none

-- The answer of a handler with the profile of a user
abbrev pub profile_reply : Option ServicesProfile → Reply ServicesResponse
profile_reply (some p) = json status_ok (services_profile p)
profile_reply none = panicked

-- PUT /minecraft/profile/name/:playerName, for an authenticated user
unfoldable pub change_name : App → Env → Database → CachedGet → Call → Bytes → User → Service Tables
unfolding rename_user
change_name app env db cached_get req player_name user t =
    elim (validate_player_name app player_name) [
      | err e ↦ (done (bad_name req e), t)
      | ok _ ↦ elim (rename_user app env user player_name) [
        | none ↦ (done (bad_name req (text "Changing your player name is not allowed.")), t)
        | some user' ↦
            let (failed_save, t') = db.exec (save_user user') t in
            elim failed_save [
              | some e ↦ (done (if is_error_unique_failed e then name_taken req else failed e), t')
              | none ↦ (next (profile_reply (get_services_profile app cached_get user')), t')
            ]
      ]
    ]

unfoldable pub services_change_name :
    App → Env → Database → CachedGet → Call → Bytes → Service Tables
unfolding with_bearer_authentication change_name
services_change_name app env db cached_get req player_name =
    with_bearer_authentication app env db (λ t. t) req
      (change_name app env db cached_get req player_name)

-- GET /minecraft/profile/name/:playerName/available, for an authenticated user
unfoldable pub name_status : App → Database → Bytes → Bytes → Tables → Reply ServicesResponse
name_status app db path player_name t =
    if not app.config.allow_changing_player_name
    then json status_ok (name_availability (codes "NOT_ALLOWED"))
    else elim (validate_player_name app player_name) [
      | err e ↦ make_error_response path status_bad_request (some (text "CONSTRAINT_VIOLATION")) (
          some (
            with_error
              "checkNameAvailability.profileName: %s, checkNameAvailability.profileName: Invalid profile name"
              e))
      | ok _ ↦ elim (db.first_user (by_player_name player_name) t) [
        | ok _ ↦ json status_ok (name_availability (codes "DUPLICATE"))
        | err e ↦
            if is_not_found e
            then json status_ok (name_availability (codes "AVAILABLE"))
            else failed e
      ]
    ]

unfoldable pub services_name_availability : App → Env → Database → Call → Bytes → Service Tables
unfolding with_bearer_authentication name_status
services_name_availability app env db req player_name =
    with_bearer_authentication app env db (λ t. t) req
      (λ user t. (next (name_status app db req.path player_name t), t))

-- DELETE /minecraft/profile/skins/active and /minecraft/profile/capes/active
unfoldable pub services_reset_texture : Kind → App → Env → Database → Disk → Call → Service World
unfolding with_bearer_authentication
services_reset_texture kind app env db disk req =
    with_bearer_authentication app env db (λ w. w.tables) req
      (λ user w.
        let (saved, w') = set_texture_and_save kind app db disk user none w in
        elim saved [ err e ↦ (done (failed e), w') | ok _ ↦ (next (no_content status_ok), w') ])

abbrev pub bad_upload : Call → Error → Reply ServicesResponse
bad_upload req message = make_error_response req.path status_bad_request none (some message)

unfoldable pub save_skin :
    Call → App → Database → Disk → CachedGet → User → Option Upload → Service World
save_skin req app db disk cached_get user none w =
    (done (bad_upload req (text "content is marked non-null but is null")), w)
save_skin req app db disk cached_get user (some src) w =
    let (saved, w') = set_texture_and_save skin app db disk user (some src) w in
    elim saved [
      | err _ ↦ (done (bad_upload req (text "Could not read image data.")), w')
      | ok user' ↦ (next (profile_reply (get_services_profile app cached_get user')), w')
    ]

-- POST /minecraft/profile/skins: the lowered form value `variant`, and the file if it opens.
unfoldable pub services_upload_skin :
    App → Env → Database → Disk → CachedGet → Call → Bytes → Option Upload → Service World
unfolding with_bearer_authentication save_skin
services_upload_skin app env db disk cached_get req variant file =
    with_bearer_authentication app env db (λ w. w.tables) req
      λ user. do
        guard app.config.allow_skins (bad_upload req (text "Changing your skin is not allowed."))
        guard (is_valid_skin_model variant)
            (bad_upload req (text "Invalid request body for skin upload"))
        save_skin req app db disk cached_get (record user { skin_model = variant }) file
