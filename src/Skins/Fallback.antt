-- ===== src/Skins/Fallback.antt =====
-- `GetFallbackSkinTexturesProperty` of common.go: the textures of the fallback player.
use drasl.Prelude.{
  ℕ, Option, none, some, List, [], ◌∷◌, ◌++◌, Bytes, codes, ◌==◌, nat_eq, length, if◌then◌else◌,
}
use drasl.Errors.{Result, ok, err}
use drasl.App.{App, CachedGet, ProfileProperty}
use drasl.Config.Types.{FallbackApiServer}
use drasl.Model.Types.{User}
use drasl.Model.Ids.{uuid_to_id}

-- What the fallback player is: an ID, or a name that the servers have to find.
pub data FallbackPlayer : Type 0 where
  player_id : Bytes → FallbackPlayer
  player_name : Bytes → FallbackPlayer

unfoldable pub fallback_player_of : App → User → Result FallbackPlayer
fallback_player_of app user = elim (app.uuid_parse user.fallback_player) [
  | err _ ↦ ok (player_name user.fallback_player)
  | ok _ ↦
      if nat_eq (length user.fallback_player) 36
      then elim (uuid_to_id user.fallback_player) [ err e ↦ err e | ok id ↦ ok (player_id id) ]
      else ok (player_id user.fallback_player)
]

-- The body of an answer with status 200 to a request at a joined URL, with a suffix
unfoldable pub get_body : App → CachedGet → Bytes → Bytes → Bytes → ℕ → Option Bytes
get_body app cached_get base path suffix ttl = elim (app.url_join_path base path) [
  | err _ ↦ none
  | ok url ↦ elim (cached_get (url ++ suffix) ttl) [
    | err _ ↦ none
    | ok res ↦ if nat_eq res.status 200 then some res.body else none
  ]
]

unfoldable pub find_id : App → CachedGet → FallbackApiServer → FallbackPlayer → Option Bytes
unfolding get_body
find_id app cached_get server (player_id id) = some id
find_id app cached_get server (player_name name) =
    elim (get_body app cached_get server.account_url (codes "/users/profiles/minecraft/" ++ name) []
      server.cache_ttl_seconds) [
        | none ↦ none
        | some body ↦ elim (app.decode_player body) [ err _ ↦ none | ok (found_name, id) ↦ some id ]
      ]

-- The first property with the name "textures"
unfoldable pub textures_of : List ProfileProperty → Option ProfileProperty
textures_of [] = none
textures_of (property ∷ properties) =
    if property.name == codes "textures" then some property else textures_of properties

-- One pass of the loop; every `continue` is `none`.
unfoldable pub ask_textures :
    App → CachedGet → FallbackPlayer → FallbackApiServer → Option ProfileProperty
unfolding find_id get_body textures_of
ask_textures app cached_get player server = elim (find_id app cached_get server player) [
  | none ↦ none
  | some id ↦
      elim (get_body app cached_get server.session_url (codes "session/minecraft/profile/" ++ id)
        (codes "?unsigned=false") server.cache_ttl_seconds) [
          | none ↦ none
          | some body ↦ elim (app.decode_profile body) [
            | err _ ↦ none
            | ok profile ↦ textures_of profile.properties
          ]
        ]
]

unfoldable pub first_textures :
    (FallbackApiServer → Option ProfileProperty) → List FallbackApiServer → Option ProfileProperty
first_textures ask [] = none
first_textures ask (server ∷ servers) = elim (ask server) [
  | some property ↦ some property
  | none ↦ first_textures ask servers
]

unfoldable pub fallback_skin_textures_property :
    App → CachedGet → User → Result (Option ProfileProperty)
unfolding fallback_player_of ask_textures first_textures
fallback_skin_textures_property app cached_get user =
    if user.fallback_player == [] then ok none else elim (fallback_player_of app user) [
      | err e ↦ err e
      | ok player ↦
          ok (first_textures (ask_textures app cached_get player) app.config.fallback_api_servers)
    ]
