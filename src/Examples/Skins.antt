-- ===== src/Examples/Skins.antt =====
-- Textures of profiles, and the cache, at concrete inputs.
use drasl.Prelude.{
  ℕ, ◌≤◌, ◌≡◌, refl, true, false, none, some, [], ◌∷◌, ◌⊎◌, arith, Bytes, codes, length,
}
use drasl.Errors.{ok, err, text}
use drasl.App.{Env, CachedGet, HttpResponse, ProfileProperty, TexturesValue, hex_encode}
use drasl.Model.Types.{User}
use drasl.Model.Ids.{uuid_to_id}
use drasl.Database.Laws.{In}
use drasl.Cache.{RequestCache, cached_get}
use drasl.Cache.Coherent.{IsCoherent, cached_get-IsCoherent}
use drasl.Skins.{zero_property, skin_textures_property}
use drasl.Skins.Own.{
  HasNoUrl, IsOwn, skin_textures_property-IsOwn, skin_textures_property-signature,
}
use drasl.Skins.Default.{choose_file_for_user}
use drasl.Skins.Default.Chosen.{choose_file_for_user-In}
use drasl.Textures.{skin, Upload, read_upload}
use drasl.Textures.Bounds.{IsAccepted, read_upload-IsAccepted}
use drasl.Examples.Setup.{app, env, alice}

abbrev response : HttpResponse
response = record { status = 200; body = codes "body" }

abbrev serving : Env
serving = record env {
  http_get = λ _. ok response;
  glob = λ _. ok (codes "a.png" ∷ codes "b.png" ∷ []);
}

abbrev cache : RequestCache
cache = (codes "url", response) ∷ []

cached_get-IsCoherent_example :
    ((cached_get serving (codes "url") 60 cache).0 ≡ ok response)
    × IsCoherent serving (cached_get serving (codes "url") 60 cache).1
cached_get-IsCoherent_example = cached_get-IsCoherent serving (codes "url") 60 cache (refl, tt)

choose_file_for_user-In_example :
    (path : Bytes) × (choose_file_for_user app serving alice (codes "*.png") ≡ ok (some path))
    × In path (codes "a.png" ∷ codes "b.png" ∷ [])
choose_file_for_user-In_example =
    choose_file_for_user-In app serving alice (codes "*.png") (codes "a.png" ∷ codes "b.png" ∷ [])
      alice.uuid (λ seed n positive. positive) refl (omega arith) refl

abbrev alice_skin : User
alice_skin = record alice { skin_hash = some (codes "h") }

abbrev unreachable : CachedGet
unreachable = λ _ _. err (text "unreachable")

abbrev property : ProfileProperty
property = record {
  name = codes "textures";
  value = codes "Alice";
  signature = some (codes "Alice");
}

property_run : skin_textures_property app env unreachable alice_skin true ≡ ok property
unfolding skin_textures_property uuid_to_id
property_run = refl

skin_textures_property-IsOwn_example :
    ((property ≡ zero_property) × HasNoUrl app alice_skin (codes "h"))
    ⊎ ((id : Bytes) × (url : Bytes) × (textures : TexturesValue) × (blob : Bytes)
        × (signature : Bytes) × IsOwn app alice_skin
            (codes "h")
            property
            id
            url
            textures
            blob
            signature)
skin_textures_property-IsOwn_example =
    skin_textures_property-IsOwn app env unreachable alice_skin (codes "h") property refl
      property_run

abbrev unsigned : ProfileProperty
unsigned = record property { signature = none }

unsigned_run : skin_textures_property app env unreachable alice_skin false ≡ ok unsigned
unfolding skin_textures_property uuid_to_id
unsigned_run = refl

skin_textures_property-signature_example : unsigned.signature ≡ none
skin_textures_property-signature_example =
    skin_textures_property-signature app env unreachable alice_skin unsigned unsigned_run

abbrev upload : Upload
upload = record { size = ok (64, 64); body = ok (1 ∷ 2 ∷ []) }

abbrev pixels : Bytes
pixels = 1 ∷ 2 ∷ []

upload_run : read_upload skin app (some upload) ≡ ok (some (pixels, codes "0102"))
unfolding read_upload hex_encode
upload_run = refl

read_upload-IsAccepted_example :
    (width : ℕ) × (height : ℕ) × IsAccepted skin app upload width height
    × (length pixels ≤ 10000000)
    × (codes "0102" ≡ hex_encode (app.blake3_sum256 pixels))
read_upload-IsAccepted_example =
    read_upload-IsAccepted skin app upload pixels (codes "0102") upload_run
