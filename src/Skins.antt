-- ===== src/Skins.antt =====
-- The textures of a player's profile: `GetSkinTexturesProperty` of common.go.
pub mod Fallback
pub mod Default
pub mod Own
use drasl.Prelude.{
  ℕ, Bool, true, false, ◌&&◌, Option, none, some, [], ◌++◌, Bytes, codes, if◌then◌else◌,
}
use drasl.Errors.{Error, Result, ok, err, ◌>>=◌, ◌>>◌}
use drasl.App.{App, Env, CachedGet, ProfileProperty, Texture, TexturesValue}
use drasl.Model.Types.{User}
use drasl.Model.Ids.{uuid_to_id}
use Fallback.{fallback_skin_textures_property}
use Default.{default_skin_texture, default_cape_texture}

-- `SkinURL` and `CapeURL` of model.go
unfoldable pub skin_url : App → Bytes → Result Bytes
skin_url app hash =
    app.url_join_path app.front_end_url (codes "drasl/texture/skin/" ++ (hash ++ codes ".png"))

unfoldable pub cape_url : App → Bytes → Result Bytes
cape_url app hash =
    app.url_join_path app.front_end_url (codes "drasl/texture/cape/" ++ (hash ++ codes ".png"))

-- `SessionProfileProperty{}`
abbrev pub zero_property : ProfileProperty
zero_property = record { name = []; value = []; signature = none }

-- `!user.SkinHash.Valid && !user.CapeHash.Valid && app.Config.ForwardSkins`
unfoldable pub forwards : App → User → Bool
forwards app user = elim user.skin_hash [
  | some _ ↦ false
  | none ↦ elim user.cape_hash [ some _ ↦ false | none ↦ app.config.forward_skins ]
]

unfoldable pub skin_texture : App → Env → User → Result (Option Texture)
unfolding skin_url
skin_texture app env user = elim user.skin_hash [
  | none ↦ ok (default_skin_texture app env user)
  | some hash ↦ do
    url ← skin_url app hash
    ok (some (record { url = url; model = some user.skin_model }))
]

unfoldable pub cape_texture : App → Env → User → Result (Option Texture)
unfolding cape_url
cape_texture app env user = elim user.cape_hash [
  | none ↦ ok (default_cape_texture app env user)
  | some hash ↦ do url ← cape_url app hash; ok (some (record { url = url; model = none }))
]

-- The encoded value is signed if that is asked for.
unfoldable pub sign_value : App → Bytes → Bool → Result (Option Bytes)
sign_value app value false = ok none
sign_value app value true = do
  signature ← app.sign_sha1 value
  ok (some (app.base64_encode signature))

unfoldable pub make_property : App → TexturesValue → Bool → Result ProfileProperty
unfolding sign_value
make_property app textures sign = do
  blob ← app.encode_textures textures
  signature ← sign_value app (app.base64_encode blob) sign
  ok (record { name = codes "textures"; value = app.base64_encode blob; signature = signature })

-- The property of the user's own textures. An error of a URL is logged, and gives an empty property.
unfoldable pub own_property : App → Env → User → Bytes → Bool → Result ProfileProperty
unfolding skin_texture cape_texture make_property
own_property app env user id sign = elim (skin_texture app env user) [
  | err _ ↦ ok zero_property
  | ok skin ↦ elim (cape_texture app env user) [
    | err _ ↦ ok zero_property
    | ok cape ↦
        make_property app
          (record {
            timestamp = env.now;
            profile_id = id;
            profile_name = user.player_name;
            skin = skin;
            cape = cape;
          })
          sign
  ]
]

abbrev unsigned_if : Bool → ProfileProperty → ProfileProperty
unsigned_if true property = property
unsigned_if false property = record property { signature = none }

-- `GetSkinTexturesProperty`
unfoldable pub skin_textures_property : App → Env → CachedGet → User → Bool → Result ProfileProperty
unfolding forwards own_property
skin_textures_property app env cached_get user sign = elim (uuid_to_id user.uuid) [
  | err e ↦ err e
  | ok id ↦
      if forwards app user
      then elim (fallback_skin_textures_property app cached_get user) [
        | err _ ↦ ok zero_property
        | ok (some property) ↦ ok (unsigned_if sign property)
        | ok none ↦ own_property app env user id sign
      ]
      else own_property app env user id sign
]
