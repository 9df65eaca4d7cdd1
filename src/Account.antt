-- ===== src/Account.antt =====
-- account.go: the identifiers of players' names.
pub mod Names
use drasl.Prelude.{ℕ, Option, none, some, List, [], ◌∷◌, ◌++◌, Bytes, codes, nat_eq, if◌then◌else◌}
use drasl.Errors.{Error, with_string, Result, ok, err, is_not_found}
use drasl.Http.{Reply, failed, json, blob, make_error_response, status_ok, status_not_found}
use drasl.App.{App, CachedGet}
use drasl.Config.Types.{FallbackApiServer}
use drasl.Model.Types.{User}
use drasl.Model.Ids.{uuid_to_id}
use drasl.Database.Tables.{Tables, Database, by_player_name}
use drasl.Session.{first_answer}

-- `playerNameToUUIDResponse`
pub record PlayerNameToUuidResponse : Type 0 where
  pub name : Bytes
  pub id : Bytes

-- The body of a fallback server's answer with status 200.
unfoldable pub ask_account : App → CachedGet → Bytes → FallbackApiServer → Option Bytes
ask_account app cached_get player_name server =
    elim (app.url_join_path server.account_url (codes "users/profiles/minecraft/" ++ player_name)) [
      | err _ ↦ none
      | ok url ↦ elim (cached_get url server.cache_ttl_seconds) [
        | err _ ↦ none
        | ok res ↦ if nat_eq res.status 200 then some res.body else none
      ]
    ]

unfoldable pub player_response : User → Result PlayerNameToUuidResponse
player_response user = elim (uuid_to_id user.uuid) [
  | err e ↦ err e
  | ok id ↦ ok (record { name = user.player_name; id = id })
]

abbrev player_reply : Result PlayerNameToUuidResponse → Reply PlayerNameToUuidResponse
player_reply (ok res) = json status_ok res
player_reply (err e) = failed e

abbrev fallback_player_reply : Bytes → Bytes → Option Bytes → Reply PlayerNameToUuidResponse
fallback_player_reply path player_name (some body) = blob status_ok body
fallback_player_reply path player_name none =
    make_error_response path status_not_found none
      (some (with_string "Couldn't find any profile with name %s" player_name))

-- GET /users/profiles/minecraft/:playerName
unfoldable pub account_player_name_to_id :
    App → Database → CachedGet → Bytes → Bytes → Tables → Reply PlayerNameToUuidResponse
unfolding ask_account player_response
account_player_name_to_id app db cached_get path player_name t =
    elim (db.first_user (by_player_name player_name) t) [
      | ok user ↦ player_reply (player_response user)
      | err e ↦
          if is_not_found e
          then fallback_player_reply path player_name (
              first_answer (ask_account app cached_get player_name) app.config.fallback_api_servers)
          else failed e
    ]

-- One fallback server of the list's loop: an answer that does not decode counts as none.
unfoldable pub ask_player :
    App → CachedGet → Bytes → FallbackApiServer → Option PlayerNameToUuidResponse
unfolding ask_account
ask_player app cached_get player_name server =
    elim (ask_account app cached_get player_name server) [
      | none ↦ none
      | some body ↦ elim (app.decode_player body) [
        | err _ ↦ none
        | ok (name, id) ↦ some (record { name = name; id = id })
      ]
    ]

unfoldable pub first_player :
    (FallbackApiServer → Option PlayerNameToUuidResponse)
    → List FallbackApiServer
    → List PlayerNameToUuidResponse
first_player ask [] = []
first_player ask (server ∷ servers) = elim (ask server) [
  | some res ↦ res ∷ []
  | none ↦ first_player ask servers
]

-- What one name adds to the response.
unfoldable pub find_player :
    App → Database → CachedGet → Tables → Bytes → Result (List PlayerNameToUuidResponse)
unfolding player_response ask_player first_player
find_player app db cached_get t player_name = elim (db.first_user (by_player_name player_name) t) [
  | ok user ↦ elim (player_response user) [ err e ↦ err e | ok res ↦ ok (res ∷ []) ]
  | err e ↦
      if is_not_found e
      then ok (first_player (ask_player app cached_get player_name) app.config.fallback_api_servers)
      else err e
]

unfoldable pub find_players :
    App → Database → CachedGet → Tables → List Bytes → Result (List PlayerNameToUuidResponse)
unfolding find_player
find_players app db cached_get t [] = ok []
find_players app db cached_get t (player_name ∷ player_names) =
    elim (find_player app db cached_get t player_name) [
      | err e ↦ err e
      | ok found ↦ elim (find_players app db cached_get t player_names) [
        | err e ↦ err e
        | ok rest ↦ ok (found ++ rest)
      ]
    ]

-- POST /profiles/minecraft
unfoldable pub account_player_names_to_ids :
    App
    → Database
    → CachedGet
    → Result (List Bytes)
    → Tables
    → Reply (List PlayerNameToUuidResponse)
unfolding find_players
account_player_names_to_ids app db cached_get bound t = elim bound [
  | err e ↦ failed e
  | ok player_names ↦ elim (find_players app db cached_get t player_names) [
    | err e ↦ failed e
    | ok response ↦ json status_ok response
  ]
]
