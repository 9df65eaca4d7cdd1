-- ===== src/Front/Challenge.antt =====
-- Registration from an existing account: the challenge that a player shows in a skin.
pub mod Window
use drasl.Prelude.{
  ℕ, zero, suc, ◌+◌, ◌*◌, ◌-◌, ◌/◌, ◌%◌, Bool, true, false, ◌&&◌, not, Option, none, some, List, [],
  ◌∷◌, ◌++◌, Bytes, codes, ◌==◌, leb, ltb, nat_eq, if◌then◌else◌,
}
use drasl.Errors.{Error, text, with_both, Result, ok, err, ◌>>=◌, ◌>>◌}
use drasl.App.{App, Env, HttpResponse, Image, ProfileProperty, ProfileResponse, Texture}
use drasl.Model.Ids.{id_to_uuid}

-- `getChallenge`
unfoldable pub get_challenge : App → Bytes → Bytes → Bytes
get_challenge app username token = app.blake3_sum512 (username ++ (app.key_b3_sum512 ++ token))

abbrev pub skin_window_x_min : ℕ
skin_window_x_min = 40

abbrev pub skin_window_y_min : ℕ
skin_window_y_min = 9

-- The width and height of the window, `..._MAX - ..._MIN`
abbrev pub skin_window_width : ℕ
skin_window_width = 8

abbrev pub skin_window_height : ℕ
skin_window_height = 2

abbrev pub pixel_bytes : ℕ × ℕ × ℕ × ℕ → Bytes
pixel_bytes (r, g, b, a) = r ∷ g ∷ b ∷ a ∷ []

-- The bytes of `n` pixels of a row, from x on.
unfoldable pub read_row : Image → ℕ → ℕ → ℕ → Bytes
read_row img y x zero = []
read_row img y x (suc n) = pixel_bytes (img x y) ++ read_row img y (x + 1) n

-- The bytes of the window's columns in `n` rows, from y on.
unfoldable pub read_rows : Image → ℕ → ℕ → Bytes
unfolding read_row
read_rows img y zero = []
read_rows img y (suc n) =
    read_row img y skin_window_x_min skin_window_width ++ read_rows img (y + 1) n

-- The challenge that a skin shows.
unfoldable pub read_challenge : Image → Bytes
unfolding read_rows
read_challenge img = read_rows img skin_window_y_min skin_window_height

-- A byte of the challenge; `Sum512` gives 64 of them.
unfoldable pub byte_at : Bytes → ℕ → ℕ
byte_at [] i = 0
byte_at (b ∷ bytes) zero = b
byte_at (b ∷ bytes) (suc i) = byte_at bytes i

abbrev pub in_window : ℕ → ℕ → Bool
in_window x y =
    leb skin_window_y_min y
    && ltb y (skin_window_y_min + skin_window_height)
    && leb skin_window_x_min x
    && ltb x (skin_window_x_min + skin_window_width)

-- The loop of FrontChallengeSkin writes the challenge to the window, four bytes to a pixel, row by
-- row; the counter `challengeByte` at a pixel is four times the number of pixels before it.
unfoldable pub embed_challenge : Bytes → Image → Image
unfolding byte_at
embed_challenge challenge verification_img x y =
    let i = 4 * ((y - skin_window_y_min) * skin_window_width + (x - skin_window_x_min)) in
    if in_window x y
    then (
      byte_at challenge i,
      byte_at challenge (i + 1),
      byte_at challenge (i + 2),
      byte_at challenge (i + 3),
    )
    else verification_img x y

-- `proxiedAccountDetails`
pub record ProxiedAccountDetails : Type 0 where
  pub username : Bytes
  pub uuid : Bytes

-- A request to the registration server: the body of a response with status 200.
get_ok : Env → Bytes → Result Bytes
get_ok env url = do
  res ← env.http_get url
  if not (nat_eq res.status 200)
      then err (text "registration server returned error")
      else ok res.body

-- The picture at the skin's URL is fetched whatever the status is.
unfoldable pub verify_skin : App → Env → Bytes → Bytes → Option Texture → Result (Unit {0})
unfolding read_challenge get_challenge
verify_skin app env username challenge_token none = err (text "player does not have a skin")
verify_skin app env username challenge_token (some skin) = do
  res ← env.http_get skin.url
  decoded ← app.png_decode res.body
  elim decoded [
    | none ↦ err (text "invalid image")
    | some img ↦
        if not (read_challenge img == get_challenge app username challenge_token)
        then err (text "skin does not match")
        else ok tt
  ]

-- The loop over the properties ends at the first one named "textures".
verify_properties : App → Env → Bytes → Bytes → List ProfileProperty → Result (Unit {0})
unfolding verify_skin
verify_properties app env username challenge_token [] =
    err (text "registration server didn't return textures")
verify_properties app env username challenge_token (property ∷ properties) =
    let rest = verify_properties app env username challenge_token properties in
    if property.name == codes "textures"
    then (do
      texture_json ← app.base64_decode property.value
      texture ← app.decode_textures texture_json
      verify_skin app env username challenge_token texture.skin)
    else rest

-- The profile of the player with a name, of whatever case.
fetch_profile : App → Env → Bytes → Result ProfileResponse
unfolding get_ok
fetch_profile app env username = do
  let existing = app.config.registration_existing_player
  account ← app.url_parse existing.account_url
  account_path ← app.url_join_path account.path (codes "users/profiles/minecraft/" ++ username)
  id_body ← get_ok env (account.string account_path none)
  (id_name, id) ← app.decode_player id_body
  session ← elim (app.url_parse existing.session_url) [
    | ok session ↦ ok session
    | err e ↦ err (with_both "Invalid SessionURL %s: %s" existing.session_url e)
  ]
  session_path ← app.url_join_path session.path (codes "session/minecraft/profile/" ++ id)
  profile_body ← get_ok env (session.string session_path none)
  app.decode_profile profile_body

-- `validateChallenge`
unfoldable pub validate_challenge : App → Env → Bytes → Bytes → Result ProxiedAccountDetails
unfolding fetch_profile verify_properties
validate_challenge app env username challenge_token = do
  profile ← fetch_profile app env username
  account_uuid ← id_to_uuid profile.id
  let details : ProxiedAccountDetails = record { username = profile.name; uuid = account_uuid }
  if not app.config.registration_existing_player.require_skin_verification
      then ok details
      else (do verify_properties app env username challenge_token profile.properties; ok details)
