-- ===== src/Services/Profile.antt =====
-- `getServicesProfile` of services.go: what the services API tells of a user.
use drasl.Prelude.{Option, none, some, List, [], ◌∷◌, Bytes, codes, if◌then◌else◌}
use drasl.Errors.{ok, err}
use drasl.App.{App, CachedGet, ProfileProperty, TexturesValue}
use drasl.Model.Types.{User}
use drasl.Model.Ids.{uuid_to_id}
use drasl.Skins.{skin_url, forwards}
use drasl.Skins.Fallback.{fallback_skin_textures_property}

pub record ServicesProfileSkin : Type 0 where
  pub id : Bytes
  pub state : Bytes
  pub url : Bytes
  pub variant : Bytes

pub record ServicesProfile : Type 0 where
  pub id : Bytes
  pub name : Bytes
  pub skins : List ServicesProfileSkin
  pub capes : List Bytes

abbrev active_skin : App → User → Bytes → Bytes → ServicesProfileSkin
active_skin app user url model = record {
  id = user.uuid;
  state = codes "ACTIVE";
  url = url;
  variant = app.to_upper model;
}

-- A list of the skin if there is one; `none` is the panic of a pointer that is nil.
abbrev pub Skins : Type 0
Skins = Option (List ServicesProfileSkin)

-- `Textures.Skin` and its `Metadata` are pointers that are not tested.
unfoldable pub decoded_skin : App → User → TexturesValue → Skins
decoded_skin app user textures = elim textures.skin [
  | none ↦ none
  | some skin ↦ elim skin.model [
    | none ↦ none
    | some model ↦ some (active_skin app user skin.url model ∷ [])
  ]
]

-- The skin of a fallback property
unfoldable pub property_skin : App → User → ProfileProperty → Skins
unfolding decoded_skin
property_skin app user property = elim (app.base64_decode property.value) [
  | err _ ↦ some []
  | ok json ↦ elim (app.decode_textures json) [
    | err _ ↦ some []
    | ok textures ↦ decoded_skin app user textures
  ]
]

unfoldable pub forwarded_skin : App → CachedGet → User → Skins
unfolding property_skin
forwarded_skin app cached_get user = elim (fallback_skin_textures_property app cached_get user) [
  | err _ ↦ some []
  | ok none ↦ some []
  | ok (some property) ↦ property_skin app user property
]

unfoldable pub own_skin : App → User → List ServicesProfileSkin
own_skin app user = elim user.skin_hash [
  | none ↦ []
  | some hash ↦ elim (skin_url app hash) [
    | err _ ↦ []
    | ok url ↦ active_skin app user url user.skin_model ∷ []
  ]
]

-- `getServicesProfileSkin`
unfoldable pub services_profile_skin : App → CachedGet → User → Skins
unfolding forwarded_skin own_skin
services_profile_skin app cached_get user =
    if forwards app user then forwarded_skin app cached_get user else some (own_skin app user)

-- The error is never set: an ID that cannot be made gives an empty profile. `none` is the panic.
unfoldable pub get_services_profile : App → CachedGet → User → Option ServicesProfile
unfolding services_profile_skin
get_services_profile app cached_get user = elim (uuid_to_id user.uuid) [
  | err _ ↦ some (record { id = []; name = []; skins = []; capes = [] })
  | ok id ↦ elim (services_profile_skin app cached_get user) [
    | none ↦ none
    | some skins ↦ some (record { id = id; name = user.player_name; skins = skins; capes = [] })
  ]
]
