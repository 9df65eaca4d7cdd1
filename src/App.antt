-- ===== src/App.antt =====
-- The `App` of main.go, and what the handlers take from outside the program: libraries whose code
-- is elsewhere, the network, the clock and randomness.
use drasl.Prelude.{
  ℕ, ◌+◌, ◌-◌, ◌/◌, ◌%◌, Bool, not, List, [], ◌∷◌, Option, some, Bytes, ◌==◌, keep, ltb,
  if◌then◌else◌,
}
use drasl.Errors.{Result, ok, ◌>>=◌}
use drasl.Config.Types.{Config}
use drasl.Model.Types.{TokenClaims}

-- A response of another server.
pub record HttpResponse : Type 0 where
  pub status : ℕ
  pub body : Bytes

-- The parts of `SessionProfileResponse` and `texturesValue` that the program reads.
pub record ProfileProperty : Type 0 where
  pub name : Bytes
  pub value : Bytes
  pub signature : Option Bytes

pub record ProfileResponse : Type 0 where
  pub id : Bytes
  pub name : Bytes
  pub properties : List ProfileProperty

-- `texture`, with the model of its metadata if it has one, and `texturesValue`
pub record Texture : Type 0 where
  pub url : Bytes
  pub model : Option Bytes

pub record TexturesValue : Type 0 where
  pub timestamp : ℕ
  pub profile_id : Bytes
  pub profile_name : Bytes
  pub skin : Option Texture
  pub cape : Option Texture

-- A decoded picture: the channels R, G, B and A of the pixel at x and y.
abbrev pub Image : Type 0
Image = ℕ → ℕ → ℕ × ℕ × ℕ × ℕ

-- A parsed URL: its path, the names and values of its query, and its text with another path and
-- with another encoded query if one is given.
pub record Url : Type 0 where
  pub path : Bytes
  pub query : List (Bytes × Bytes)
  pub string : Bytes → Option Bytes → Bytes

-- Functions of libraries. Each is total and may fail with an error.
pub record Externals : Type 0 where
  -- github.com/google/uuid: the 16 bytes of a UUID in any accepted form, and their printed form
  pub uuid_parse : Bytes → Result Bytes
  pub uuid_from_bytes : Bytes → Result Bytes
  pub uuid_string : Bytes → Bytes
  -- golang.org/x/crypto/scrypt, at the parameters of `HashPassword`
  pub scrypt_key : Bytes → Bytes → Result Bytes
  -- hashes
  pub blake3_sum512 : Bytes → Bytes
  pub blake3_sum256 : Bytes → Bytes
  pub md5_sum : Bytes → Bytes
  -- github.com/golang-jwt/jwt with the key of the instance: signing, and parsing at a time
  pub jwt_sign : TokenClaims → Result Bytes
  pub jwt_parse : ℕ → Bytes → Result TokenClaims
  -- net/url: `JoinPath`, `Parse`, and `Values.Encode` of names and values
  pub url_join_path : Bytes → Bytes → Result Bytes
  pub url_parse : Bytes → Result Url
  pub url_encode : List (Bytes × Bytes) → Bytes
  -- encoding/json at `playerNameToUUIDResponse` (name and ID), `SessionProfileResponse` and
  -- `texturesValue`; encoding/base64; image/png, `none` where it is no NRGBA picture
  pub decode_player : Bytes → Result (Bytes × Bytes)
  pub decode_profile : Bytes → Result ProfileResponse
  pub decode_textures : Bytes → Result TexturesValue
  pub encode_textures : TexturesValue → Result Bytes
  pub base64_encode : Bytes → Bytes
  pub base64_decode : Bytes → Result Bytes
  pub png_decode : Bytes → Result (Option Image)
  -- rsa.SignPKCS1v15 with SHA-1
  pub sign_sha1 : Bytes → Result Bytes
  -- path and path/filepath
  pub path_join : Bytes → Bytes → Bytes
  pub filepath_rel : Bytes → Bytes → Result Bytes
  -- math/rand: `Intn` of a source with the seed of these 64 bits
  pub rand_intn : ℕ → ℕ → ℕ
  -- strings.ToUpper
  pub to_upper : Bytes → Bytes
  -- github.com/jxskiss/base62
  pub base62_encode : Bytes → Bytes

pub record App : Type 0 where
  pub front_end_url : Bytes
  pub config : Config
  -- `MatchString` of the two compiled expressions
  pub transient_username_regex : Bytes → Bool
  pub valid_player_name_regex : Bytes → Bool
  pub max_player_name_length : ℕ
  pub player_certificate_keys : List Bytes
  pub profile_property_keys : List Bytes
  pub key_b3_sum512 : Bytes
  pub externals : Externals
  pub open externals use *

-- What the system gives to one request. The clock is read once for all `time.Now()` of a request.
pub record Env : Type 0 where
  pub now : ℕ
  pub rand_read : ℕ → Result Bytes
  pub new_uuid : Bytes
  pub http_get : Bytes → Result HttpResponse
  -- `filepath.Glob`
  pub glob : Bytes → Result (List Bytes)

-- `app.CachedGet` with the cache as it is: a URL, for how many seconds its answer is kept, and the
-- answer.
abbrev pub CachedGet : Type 0
CachedGet = Bytes → ℕ → Result HttpResponse

-- `Constants.MaxPlayerNameLength`
abbrev pub max_player_name_length_constant : ℕ
max_player_name_length_constant = 999

-- A digit of `hex.EncodeToString`.
hex_digit : ℕ → ℕ
hex_digit d = if ltb d 10 then b'0' + d else b'a' + (d - 10)

unfoldable pub hex_encode : Bytes → Bytes
unfolding hex_digit
hex_encode [] = []
hex_encode (b ∷ bytes) = hex_digit (b / 16) ∷ hex_digit (b % 16) ∷ hex_encode bytes

-- `RandomHex` of util.go
unfoldable pub random_hex : Env → ℕ → Result Bytes
unfolding hex_encode
random_hex env n = do bytes ← env.rand_read n; ok (hex_encode bytes)

-- `RandomBase62` of util.go
unfoldable pub random_base62 : App → Env → ℕ → Result Bytes
random_base62 app env n = do bytes ← env.rand_read n; ok (app.base62_encode bytes)

-- `StripQueryParam` of common.go
unfoldable pub strip_query_param : App → Bytes → Bytes → Result Bytes
strip_query_param app url_string param = do
  url ← app.url_parse url_string
  ok (
      url.string url.path
        (some (app.url_encode (keep (λ (q : Bytes × Bytes). not (q.0 == param)) url.query))))
