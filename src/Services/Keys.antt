-- ===== src/Services/Keys.antt =====
-- The public keys of services.go and main.go: what /publickeys shows, and how `setup` collects the
-- keys of the fallback servers.
pub mod Merged
use drasl.Prelude.{
  ℕ, List, [], ◌∷◌, ◌++◌, map, Option, none, some, Bytes, codes, nat_eq, if◌then◌else◌,
}
use drasl.Util.{contains_public_key}
use drasl.Errors.{Error, Result, ok, err, ◌>>=◌}
use drasl.App.{App, Env, HttpResponse}
use drasl.Config.Types.{FallbackApiServer}

pub record PublicKeysResponse : Type 0 where
  pub player_certificate_keys : List Bytes
  pub profile_property_keys : List Bytes

-- crypto/x509 on RSA keys, where a key is known by its contents, and encoding/json.
pub record KeyFormats : Type 0 where
  -- the key of a DER form, which may be no RSA key
  pub parse_public_key : Bytes → Result Bytes
  pub marshal_public_key : Bytes → Bytes
  pub decode_public_keys : Bytes → Result PublicKeysResponse

-- `SerializedKeyToPublicKey`
unfoldable pub serialized_key_to_public_key : App → KeyFormats → Bytes → Result Bytes
serialized_key_to_public_key app formats serialized_key = do
  public_key_der ← app.base64_decode serialized_key
  formats.parse_public_key public_key_der

abbrev serialize : App → KeyFormats → Bytes → Bytes
serialize app formats key = app.base64_encode (formats.marshal_public_key key)

-- GET /publickeys. Both lists are made of the keys for profile properties.
unfoldable pub services_public_keys : App → KeyFormats → PublicKeysResponse
services_public_keys app formats = record {
  player_certificate_keys = map (serialize app formats) app.profile_property_keys;
  profile_property_keys = map (serialize app formats) app.profile_property_keys;
}

-- One key of a response: a key that is invalid, or there already, is skipped.
unfoldable pub add_key : App → KeyFormats → List Bytes → Bytes → List Bytes
unfolding serialized_key_to_public_key contains_public_key
add_key app formats keys serialized_key =
    elim (serialized_key_to_public_key app formats serialized_key) [
      | err _ ↦ keys
      | ok key ↦ if contains_public_key keys key then keys else keys ++ (key ∷ [])
    ]

unfoldable pub add_keys : App → KeyFormats → List Bytes → List Bytes → List Bytes
unfolding add_key
add_keys app formats keys [] = keys
add_keys app formats keys (k ∷ serialized) =
    add_keys app formats (add_key app formats keys k) serialized

-- The response of a fallback server; every `continue` is `none`. A URL that cannot be joined panics
-- when the server starts.
unfoldable pub fetch_keys :
    App → Env → KeyFormats → FallbackApiServer → Result (Option PublicKeysResponse)
fetch_keys app env formats server =
    elim (app.url_join_path server.services_url (codes "publickeys")) [
      | err e ↦ err e
      | ok url ↦ elim (env.http_get url) [
        | err _ ↦ ok none
        | ok res ↦
            if nat_eq res.status 200
            then elim (formats.decode_public_keys res.body) [
              | err _ ↦ ok none
              | ok keys ↦ ok (some keys)
            ]
            else ok none
      ]
    ]

-- The keys for profile properties and for certificates
abbrev pub Keys : Type 0
Keys = List Bytes × List Bytes

unfoldable pub add_response : App → KeyFormats → Keys → Option PublicKeysResponse → Keys
unfolding add_keys
add_response app formats keys none = keys
add_response app formats keys (some res) = (
  add_keys app formats keys.0 res.profile_property_keys,
  add_keys app formats keys.1 res.player_certificate_keys,
)

-- The loop over the fallback servers
unfoldable pub collect_keys : App → Env → KeyFormats → List FallbackApiServer → Keys → Result Keys
unfolding fetch_keys add_response
collect_keys app env formats [] keys = ok keys
collect_keys app env formats (server ∷ servers) keys = elim (fetch_keys app env formats server) [
  | err e ↦ err e
  | ok res ↦ collect_keys app env formats servers (add_response app formats keys res)
]

-- Both lists of `setup` start with the instance's own key.
unfoldable pub setup_keys : App → Env → KeyFormats → Bytes → Result Keys
unfolding collect_keys
setup_keys app env formats key =
    collect_keys app env formats app.config.fallback_api_servers (key ∷ [], key ∷ [])
