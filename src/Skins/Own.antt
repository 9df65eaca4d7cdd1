-- ===== src/Skins/Own.antt =====
-- What the textures property of a profile says.
use drasl.Prelude.{
  ◌≡◌, refl, ◌⊎◌, inl, inr, true, false, none, some, arith, Bytes, Bool-cases, Option-cases,
}
use drasl.Errors.{Error, ok, err, Result-cases}
use drasl.App.{App, Env, CachedGet, ProfileProperty, TexturesValue}
use drasl.Model.Types.{User}
use drasl.Model.Ids.{uuid_to_id}
use drasl.Skins.Fallback.{fallback_skin_textures_property}
use drasl.Skins.{
  skin_url, cape_url, zero_property, forwards, skin_texture, cape_texture, sign_value,
  make_property, own_property, skin_textures_property,
}

make_property-signature :
    (app : App) (textures : TexturesValue) (p : ProfileProperty)
    → make_property app textures false ≡ ok p
    → p.signature ≡ none
unfolding make_property sign_value
make_property-signature app textures p h = elim (Result-cases (app.encode_textures textures)) [
  | inl (blob, e) ↦ ground arith
  | inr (e, q) ↦ ground arith
]

own_property-signature :
    (app : App) (env : Env) (user : User) (id : Bytes) (p : ProfileProperty)
    → own_property app env user id false ≡ ok p
    → p.signature ≡ none
unfolding own_property
own_property-signature app env user id p h = elim (Result-cases (skin_texture app env user)) [
  | inr (e, q) ↦ ground arith
  | inl (s, q) ↦ elim (Result-cases (cape_texture app env user)) [
    | inr (e, r) ↦ ground arith
    | inl (c, r) ↦
        let textures : TexturesValue = record {
          timestamp = env.now;
          profile_id = id;
          profile_name = user.player_name;
          skin = s;
          cape = c;
        } in
        make_property-signature app textures p (ground arith)
  ]
]

-- A property that is asked for without a signature has none, also where it comes from another
-- server that signed it.
pub skin_textures_property-signature :
    (app : App) (env : Env) (cached_get : CachedGet) (user : User) (p : ProfileProperty)
    → skin_textures_property app env cached_get user false ≡ ok p
    → p.signature ≡ none
unfolding skin_textures_property
skin_textures_property-signature app env cached_get user p h =
    elim (Result-cases (uuid_to_id user.uuid)) [
      | inr (e, q) ↦ ground arith
      | inl (id, q) ↦ elim (Bool-cases (forwards app user)) [
        | inr own ↦ own_property-signature app env user id p (ground arith)
        | inl on ↦ elim (Result-cases (fallback_skin_textures_property app cached_get user)) [
          | inr (e, r) ↦ ground arith
          | inl (found, r) ↦ elim (Option-cases found) [
            | inr (other, o) ↦ ground arith
            | inl o ↦ own_property-signature app env user id p (ground arith)
          ]
        ]
      ]
    ]

-- The property of a user's own textures: what it encodes, and the signature.
pub record IsOwn (app : App) (user : User) (hash : Bytes) (p : ProfileProperty) (id url : Bytes)
    (textures : TexturesValue) (blob signature : Bytes) : Type 0 where
  pub identified : uuid_to_id user.uuid ≡ ok id
  pub id_lem : textures.profile_id ≡ id
  pub name_lem : textures.profile_name ≡ user.player_name
  pub located : skin_url app hash ≡ ok url
  pub skin_lem : textures.skin ≡ some (record { url = url; model = some user.skin_model })
  pub encoded : app.encode_textures textures ≡ ok blob
  pub value_lem : p.value ≡ app.base64_encode blob
  pub signed : app.sign_sha1 p.value ≡ ok signature
  pub signature_lem : p.signature ≡ some (app.base64_encode signature)

-- The URL of the skin or of the cape cannot be made.
abbrev pub HasNoUrl : App → User → Bytes → Type 0
HasNoUrl app user hash =
    ((e : Error) × (skin_url app hash ≡ err e))
    ⊎ ((cape : Bytes) × (user.cape_hash ≡ some cape) × (e : Error) × (cape_url app cape ≡ err e))

cape_texture-err :
    (app : App) (env : Env) (user : User) (e : Error)
    → cape_texture app env user ≡ err e
    → (cape : Bytes) × (user.cape_hash ≡ some cape) × (f : Error) × (cape_url app cape ≡ err f)
unfolding cape_texture
cape_texture-err app env user e h = elim (Option-cases user.cape_hash) [
  | inl p ↦ absurd (ground arith)
  | inr (cape, p) ↦ elim (Result-cases (cape_url app cape)) [
    | inl (url, q) ↦ absurd (ground arith)
    | inr (f, q) ↦ (cape, p, f, q)
  ]
]

own_property-IsOwn :
    (app : App) (env : Env) (user : User) (hash id : Bytes) (p : ProfileProperty)
    → user.skin_hash ≡ some hash
    → uuid_to_id user.uuid ≡ ok id
    → own_property app env user id true ≡ ok p
    → ((p ≡ zero_property) × HasNoUrl app user hash)
      ⊎ ((url : Bytes) × (textures : TexturesValue) × (blob : Bytes) × (signature : Bytes) × IsOwn
            app user hash p id url textures blob signature)
unfolding own_property skin_texture make_property sign_value
own_property-IsOwn app env user hash id p skin identified h =
    elim (Result-cases (skin_url app hash)) [
      | inr (e, q) ↦ inl (ground arith, inl (e, q))
      | inl (url, q) ↦ elim (Result-cases (cape_texture app env user)) [
        | inr (e, r) ↦ inl (ground arith, inr (cape_texture-err app env user e r))
        | inl (cape, r) ↦
            let textures : TexturesValue = record {
              timestamp = env.now;
              profile_id = id;
              profile_name = user.player_name;
              skin = some (record { url = url; model = some user.skin_model });
              cape = cape;
            } in
            elim (Result-cases (app.encode_textures textures)) [
              | inr (e, b) ↦ absurd (ground arith)
              | inl (blob, b) ↦ elim (Result-cases (app.sign_sha1 (app.base64_encode blob))) [
                | inr (e, g) ↦ absurd (ground arith)
                | inl (signature, g) ↦ inr (
                  url,
                  textures,
                  blob,
                  signature,
                  record {
                    identified = identified;
                    id_lem = refl;
                    name_lem = refl;
                    located = q;
                    skin_lem = refl;
                    encoded = b;
                    value_lem = ground arith;
                    signed = ground arith;
                    signature_lem = ground arith;
                  },
                )
              ]
            ]
      ]
    ]

-- The signed property of a user with a skin of its own encodes the user's ID, player name, and the
-- URL and model of that skin, and its signature is that of the encoded value; or it is the empty
-- property, and then the URL of the skin, or of the user's own cape, cannot be made.
pub skin_textures_property-IsOwn :
    (app : App) (env : Env) (cached_get : CachedGet) (user : User) (hash : Bytes)
    (p : ProfileProperty)
    → user.skin_hash ≡ some hash
    → skin_textures_property app env cached_get user true ≡ ok p
    → ((p ≡ zero_property) × HasNoUrl app user hash)
      ⊎ ((id : Bytes) × (url : Bytes) × (textures : TexturesValue) × (blob : Bytes)
          × (signature : Bytes) × IsOwn app user hash p id url textures blob signature)
unfolding skin_textures_property forwards
skin_textures_property-IsOwn app env cached_get user hash p skin h =
    elim (Result-cases (uuid_to_id user.uuid)) [
      | inr (e, q) ↦ absurd (ground arith)
      | inl (id, q) ↦ elim (own_property-IsOwn app env user hash id p skin q (ground arith)) [
        | inl empty ↦ inl empty
        | inr (url, textures, blob, signature, own) ↦ inr (id, url, textures, blob, signature, own)
      ]
    ]
