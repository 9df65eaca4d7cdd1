-- ===== src/Session.antt =====
-- session.go: a player joins a server, and the server asks whether the player has joined.
-- `app.CachedGet`, with the cache as it is, is a parameter; Cache is about it.
pub mod Joined
use drasl.Prelude.{
  ℕ, Bool, true, false, ◌&&◌, not, Option, none, some, List, [], ◌∷◌, ◌++◌, Bytes, codes, ◌==◌,
  nat_eq, if◌then◌else◌,
}
use drasl.Errors.{Error, text, with_string, Result, ok, err, is_not_found}
use drasl.Flow.{Exec, next, done, pure, stop, gets, need, ◌>>=◌, ◌>>◌}
use drasl.Http.{
  Reply, failed, json, json_error, no_content, blob, try, status_ok, status_no_content,
  status_bad_request, status_forbidden, invalid_access_token,
}
use drasl.App.{App, Env, CachedGet, ProfileProperty, ProfileResponse}
use drasl.Config.Types.{FallbackApiServer}
use drasl.Model.Types.{User, stale_policy_deny}
use drasl.Model.Ids.{uuid_to_id, id_to_uuid}
use drasl.Model.Validate.{make_transient_user}
use drasl.Model.Tokens.{get_client}
use drasl.Database.Tables.{
  Tables, Database, by_player_name, by_uuid, by_offline_uuid, column_is, save_user,
}
use drasl.Skins.{skin_textures_property}
use drasl.Auth.{execute}

-- `sessionJoinRequest`; `SelectedProfile` is not read.
pub record SessionJoinRequest : Type 0 where
  pub access_token : Bytes
  pub selected_profile : Bytes
  pub server_id : Bytes

abbrev pub with_server : User → Bytes → User
with_server user server_id = record user { server_id = some server_id }

-- POST /session/minecraft/join
unfoldable pub session_join :
    App
    → Env
    → Database
    → Result SessionJoinRequest
    → Exec Tables (Reply (Unit {0})) (Reply (Unit {0}))
session_join app env db bound = do
  req ← try bound
  found ← gets (get_client app db env.now req.access_token stale_policy_deny)
  (client, user) ← need found (json_error status_forbidden invalid_access_token)
  execute (db.exec (save_user (with_server user req.server_id)))
  pure (no_content status_no_content)

-- `fullProfile`
unfoldable pub full_profile : App → Env → CachedGet → User → Bytes → Bool → Result ProfileResponse
full_profile app env cached_get user uuid sign = elim (uuid_to_id uuid) [
  | err e ↦ err e
  | ok id ↦ elim (skin_textures_property app env cached_get user sign) [
    | err e ↦ err e
    | ok property ↦ ok (record { id = id; name = user.player_name; properties = property ∷ [] })
  ]
]

-- `c.JSON(http.StatusOK, profile)` behind `fullProfile`
abbrev pub profile_reply : Result ProfileResponse → Reply ProfileResponse
profile_reply (ok profile) = json status_ok profile
profile_reply (err e) = failed e

abbrev has_joined_query : Bytes → Bytes → List (Bytes × Bytes)
has_joined_query player_name server_id =
    (codes "username", player_name) ∷ (codes "serverId", server_id) ∷ []

-- One fallback server: the body of its answer if it has status 200.
unfoldable pub ask_server : App → Env → Bytes → Bytes → Bool → FallbackApiServer → Option Bytes
ask_server app env player_name server_id unknown server =
    if server.deny_unknown_users && unknown then none else elim (app.url_parse server.session_url) [
      | err _ ↦ none
      | ok base ↦
          elim (env.http_get (
            base.string (base.path ++ codes "/session/minecraft/hasJoined")
              (some (app.url_encode (has_joined_query player_name server_id))))) [
                | err _ ↦ none
                | ok res ↦ if nat_eq res.status 200 then some res.body else none
              ]
    ]

-- The first fallback server that answers
unfoldable pub first_answer :
    (FallbackApiServer → Option Bytes) → List FallbackApiServer → Option Bytes
first_answer ask [] = none
first_answer ask (server ∷ servers) = elim (ask server) [
  | some body ↦ some body
  | none ↦ first_answer ask servers
]

abbrev pub fallback_reply : ℕ → Option Bytes → Reply ProfileResponse
fallback_reply status none = no_content status
fallback_reply status (some body) = blob status_ok body

abbrev transient_error : App → Env → Bytes → Option (Reply ProfileResponse)
transient_error app env player_name =
    if app.config.transient_users.allow && app.transient_username_regex player_name
    then elim (make_transient_user app env player_name) [ ok _ ↦ none | err e ↦ some (failed e) ]
    else some (no_content status_forbidden)

-- GET /session/minecraft/hasJoined. A lookup that fails for another reason than a missing row is
-- what the transient users' branch is for.
unfoldable pub session_has_joined :
    App → Env → Database → CachedGet → Bytes → Bytes → Tables → Reply ProfileResponse
unfolding full_profile ask_server first_answer
session_has_joined app env db cached_get player_name server_id t =
    let fallback = λ (unknown : Bool). fallback_reply status_forbidden (
      first_answer (ask_server app env player_name server_id unknown)
        app.config.fallback_api_servers) in
    elim (db.first_user (by_player_name player_name) t) [
      | ok user ↦
          if not (column_is user.server_id server_id)
          then fallback false
          else profile_reply (full_profile app env cached_get user user.uuid true)
      | err e ↦
          if is_not_found e then fallback true else elim (transient_error app env player_name) [
            | some reply ↦ reply
            | none ↦ fallback true
          ]
    ]

-- `findUser` of SessionProfile. An error of the database ends it with the outer error, which is nil.
unfoldable pub find_user : App → Database → Bytes → Tables → Option User
find_user app db uuid t = elim (db.first_user (by_uuid uuid) t) [
  | ok user ↦ some user
  | err e ↦
      if is_not_found e && app.config.offline_skins
      then elim (db.first_user (by_offline_uuid uuid) t) [ ok user ↦ some user | err _ ↦ none ]
      else none
]

-- `app.CachedGet` at a fallback server: the body of an answer with status 200.
unfoldable pub ask_profile : App → CachedGet → Bytes → FallbackApiServer → Option Bytes
ask_profile app cached_get id server =
    elim (app.url_join_path server.session_url (codes "session/minecraft/profile/" ++ id)) [
      | err _ ↦ none
      | ok url ↦ elim (cached_get (url ++ codes "?unsigned=false") server.cache_ttl_seconds) [
        | err _ ↦ none
        | ok res ↦ if nat_eq res.status 200 then some res.body else none
      ]
    ]

-- GET /session/minecraft/profile/:id
unfoldable pub session_profile :
    App → Env → Database → CachedGet → Bytes → Bytes → Tables → Reply ProfileResponse
unfolding full_profile find_user ask_profile first_answer
session_profile app env db cached_get id unsigned t = elim (id_to_uuid id) [
  | err _ ↦ json_error status_bad_request (record {
    path = none;
    error = none;
    error_message = some (with_string "Not a valid UUID: " id);
  })
  | ok uuid ↦ elim (find_user app db uuid t) [
    | none ↦
        fallback_reply status_no_content
          (first_answer (ask_profile app cached_get id) app.config.fallback_api_servers)
    | some user ↦
        profile_reply (full_profile app env cached_get user uuid (unsigned == codes "false"))
  ]
]
