-- ===== src/Examples/Setup.antt =====
-- An instance with toy libraries: a token is its claims, a password hash is the password behind the
-- salt, and every other function copies its input.
use drasl.Prelude.{
  ℕ, ◌*◌, ◌<◌, ◌≤◌, ◌≡◌, true, false, none, [], ◌∷◌, ◌++◌, arith, ltb, Bytes, codes, if◌then◌else◌,
}
use drasl.Errors.{Error, Result, ok, err, text}
use drasl.Config.Types.{Config, default_config}
use drasl.App.{App, Env, Externals}
use drasl.Model.Types.{User, Client, TokenClaims, skin_model_classic, second}
use drasl.Model.Tokens.{AreTokens}
use drasl.Database.Tables.{Tables}

abbrev pub toy_parse : ℕ → Bytes → Result TokenClaims
toy_parse now (version ∷ issued ∷ expires ∷ stale ∷ subject) =
    if ltb now expires
    then ok (record {
      subject = subject;
      issued_at = issued;
      expires_at = expires;
      version = version;
      stale_at = stale;
    })
    else err (text "token is expired")
toy_parse now _ = err (text "token is malformed")

abbrev pub toy : Externals
toy = record {
  uuid_parse = λ s. ok s;
  uuid_from_bytes = λ s. ok s;
  uuid_string = λ s. s;
  scrypt_key = λ password salt. ok (salt ++ password);
  blake3_sum512 = λ s. s;
  blake3_sum256 = λ s. s;
  md5_sum = λ s. s;
  jwt_sign = λ c. ok (c.version ∷ c.issued_at ∷ c.expires_at ∷ c.stale_at ∷ c.subject);
  jwt_parse = toy_parse;
  url_join_path = λ base path. ok (base ++ path);
  url_parse = λ s. ok (record { path = []; query = []; string = λ path query. s ++ path });
  url_encode = λ q. [];
  decode_player = λ s. ok (s, s);
  decode_profile = λ s. ok (record { id = s; name = s; properties = [] });
  decode_textures = λ s. err (text "no JSON");
  encode_textures = λ v. ok v.profile_name;
  base64_encode = λ s. s;
  base64_decode = λ s. ok s;
  png_decode = λ s. ok none;
  sign_sha1 = λ s. ok s;
  path_join = λ dir name. dir ++ (b'/' ∷ name);
  filepath_rel = λ dir path. ok path;
  rand_intn = λ seed n. 0;
  to_upper = λ s. s;
  base62_encode = λ s. s;
}

toy_parse_live :
    (c : TokenClaims) (token : Bytes) (now : ℕ)
    → toy.jwt_sign c ≡ ok token
    → now < c.expires_at
    → toy_parse now token ≡ ok c
toy_parse_live c [] now h live = cc
toy_parse_live c (_ ∷ []) now h live = cc
toy_parse_live c (_ ∷ _ ∷ []) now h live = cc
toy_parse_live c (_ ∷ _ ∷ _ ∷ []) now h live = cc
toy_parse_live c (v ∷ i ∷ e ∷ s ∷ subject) now h live = ground arith

toy_parse_late :
    (c : TokenClaims) (token : Bytes) (now : ℕ)
    → toy.jwt_sign c ≡ ok token
    → c.expires_at ≤ now
    → (e : Error) × (toy_parse now token ≡ err e)
toy_parse_late c [] now h late = cc
toy_parse_late c (_ ∷ []) now h late = cc
toy_parse_late c (_ ∷ _ ∷ []) now h late = cc
toy_parse_late c (_ ∷ _ ∷ _ ∷ []) now h late = cc
toy_parse_late c (v ∷ i ∷ e ∷ s ∷ subject) now h late = (text "token is expired", ground arith)

toy_parse_stable :
    (token : Bytes) (now now' : ℕ) (c c' : TokenClaims)
    → toy_parse now token ≡ ok c
    → toy_parse now' token ≡ ok c'
    → c ≡ c'
toy_parse_stable [] now now' c c' h k = cc
toy_parse_stable (_ ∷ []) now now' c c' h k = cc
toy_parse_stable (_ ∷ _ ∷ []) now now' c c' h k = cc
toy_parse_stable (_ ∷ _ ∷ _ ∷ []) now now' c c' h k = cc
toy_parse_stable (v ∷ i ∷ e ∷ s ∷ subject) now now' c c' h k = ground arith

pub toy-AreTokens : AreTokens toy
toy-AreTokens = record {
  parse-sign = toy_parse_live;
  parse-expired = toy_parse_late;
  parse_stable = toy_parse_stable;
}

abbrev pub config : Config
config = default_config [] []

abbrev pub app : App
app = record {
  front_end_url = codes "f";
  config = config;
  transient_username_regex = λ _. false;
  valid_player_name_regex = λ _. true;
  max_player_name_length = 999;
  player_certificate_keys = [];
  profile_property_keys = [];
  key_b3_sum512 = [];
  externals = toy;
}

abbrev pub env : Env
env = record {
  now = 5 * second;
  rand_read = λ n. ok (7 ∷ []);
  new_uuid = codes "new";
  http_get = λ _. err (text "unreachable");
  glob = λ _. ok [];
}

abbrev pub uuid_a : Bytes
uuid_a = codes "aaaaaaaa-aaaa-aaaa-aaaa-aaaaaaaaaaaa"

abbrev pub alice : User
alice = record {
  is_admin = false;
  is_locked = false;
  uuid = uuid_a;
  username = codes "alice";
  password_salt = codes "s";
  password_hash = codes "spw";
  server_id = none;
  player_name = codes "Alice";
  offline_uuid = [];
  fallback_player = [];
  preferred_language = codes "en";
  browser_token = none;
  skin_hash = none;
  skin_model = skin_model_classic;
  cape_hash = none;
  created_at = 0;
  name_last_changed_at = 0;
}

abbrev pub alice_client : Client
alice_client = record {
  uuid = codes "c";
  client_token = codes "ct";
  version = 3;
  user_uuid = uuid_a;
}

abbrev pub tables : Tables
tables = record { users = alice ∷ []; clients = alice_client ∷ []; invites = [] }

-- The token that `alice_client` has now.
abbrev pub alice_token : Bytes
alice_token = 3 ∷ 0 ∷ (100 * second) ∷ (100 * second) ∷ codes "c"
