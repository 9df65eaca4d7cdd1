-- ===== src/Front/Pages/Solvable.antt =====
-- The challenge page of front.go and `validateChallenge`, which reads what it shows.
use drasl.Prelude.{
  ℕ, zero, suc, ◌+◌, ◌≤◌, ◌<◌, ◌≡◌, refl, ◌∙◌, inl, inr, Option, some, ◌++◌, arith, Bytes, eq_refl,
  length,
}
use drasl.Errors.{ok, Result-cases}
use drasl.App.{App, Env, Image, Texture}
use drasl.Model.Types.{User}
use drasl.Front.Challenge.{
  get_challenge, embed_challenge, read_row, read_rows, read_challenge, verify_skin,
}
use drasl.Front.Challenge.Window.{read_challenge-embed_challenge}
use drasl.Front.Types.{ChallengeView}
use drasl.Front.Pages.{PngEncode, make_challenge_view}

-- Pictures with the same pixels in the rows and columns of a skin
abbrev pub HasSamePixels : Image → Image → Type 0
HasSamePixels img img' = (x y : ℕ) → x < 64 → y < 64 → img x y ≡ img' x y

module _ (img img' : Image) (same : HasSamePixels img img') where
  read_row_same : (y x n : ℕ) → y < 64 → x + n ≤ 64 → read_row img y x n ≡ read_row img' y x n
  unfolding read_row
  read_row_same y x zero low fits = refl
  read_row_same y x (suc n) low fits =
      let rest = read_row_same y (x + 1) n low (omega arith) in
      let here = same x y (omega arith) low in cc

  read_challenge_same : read_challenge img ≡ read_challenge img'
  unfolding read_challenge read_rows
  read_challenge_same =
      let first = read_row_same 9 40 8 (omega arith) (omega arith) in
      let second = read_row_same 10 40 8 (omega arith) (omega arith) in cc

-- What image/png, base64 and blake3 promise: a picture that was encoded is decoded with the same
-- pixels, decoding base64 gives back what was encoded, and a sum has 64 bytes.
pub record IsReadable (app : App) (png_encode : PngEncode) (img : Image) : Type 0 where
  pub decode-encode :
      (body : Bytes)
      → png_encode img ≡ ok body
      → (img' : Image) × (app.png_decode body ≡ ok (some img')) × HasSamePixels img' img
  pub base64-inverse : (b : Bytes) → app.base64_decode (app.base64_encode b) ≡ ok b
  pub sum_length : (b : Bytes) → length (app.blake3_sum512 b) ≡ 64

challenge_length :
    (app : App) (username token : Bytes)
    → ((b : Bytes) → length (app.blake3_sum512 b) ≡ 64)
    → length (get_challenge app username token) ≡ 64
unfolding get_challenge
challenge_length app username token sum_length =
    sum_length (username ++ (app.key_b3_sum512 ++ token))

-- If the skin on the challenge page of a user name and token is what a player's texture URL gives,
-- the player passes the check of the skin under that user name and token.
pub make_challenge_view-verify_skin :
    (app : App) (env : Env) (png_encode : PngEncode) (verification_img : Image) (user : Option User)
    (username invite_code token body : Bytes) (view : ChallengeView) (skin : Texture) (status : ℕ)
    → IsReadable app png_encode
        (embed_challenge (get_challenge app username token) verification_img)
    → make_challenge_view app png_encode verification_img user username invite_code token ≡ ok view
    → app.base64_decode view.skin_base64 ≡ ok body
    → env.http_get skin.url ≡ ok (record { status = status; body = body })
    → verify_skin app env username token (some skin) ≡ ok tt
unfolding make_challenge_view verify_skin
make_challenge_view-verify_skin app env png_encode verification_img user username invite_code token
      body view skin status readable made decoded got =
    let challenge = get_challenge app username token in
    let shown = embed_challenge challenge verification_img in
    elim (Result-cases (png_encode shown)) [
      | inr (e, p) ↦ absurd (ground arith)
      | inl (blob, p) ↦
          let (img, read, same) = readable.decode-encode blob p in
          let inverse = readable.base64-inverse blob in
          let whole : blob ≡ body = ground arith in
          let seen : read_challenge img ≡ challenge =
            read_challenge_same img shown same
            ∙ read_challenge-embed_challenge challenge verification_img
                (challenge_length app username token readable.sum_length) in
          let equal = eq_refl challenge in ground arith
    ]
