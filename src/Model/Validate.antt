-- ===== src/Model/Validate.antt =====
-- Validation of names, passwords, languages and skin models, and the accounts of transient users.
use drasl.Prelude.{
  ℕ, zero, suc, ◌+◌, ◌%◌, Bool, false, ◌&&◌, ◌||◌, not, none, List, [], ◌∷◌, ◌++◌, leb, ltb, Bytes,
  codes, ◌==◌, length, take, if◌then◌else◌,
}
use drasl.Errors.{text, with_number, with_string, Result, ok, err, ◌>>=◌}
use drasl.Util.{contains}
use drasl.App.{App, Env}
use drasl.Model.Types.{User, skin_model_slim, skin_model_classic}

unfoldable pub is_valid_skin_model : Bytes → Bool
is_valid_skin_model model = model == skin_model_slim || model == skin_model_classic

unfoldable pub transient_login_eligible : App → Bytes → Bool
transient_login_eligible app player_name =
    app.config.transient_users.allow
    && app.transient_username_regex player_name
    && leb (length player_name) app.max_player_name_length

-- The error, if there is one.
unfoldable pub validate_player_name : App → Bytes → Result (Unit {0})
unfolding transient_login_eligible
validate_player_name app player_name =
    if transient_login_eligible app player_name
    then err (text "name is reserved for transient login")
    else if player_name == []
    then err (text "can't be blank")
    else if ltb app.max_player_name_length (length player_name)
    then err (with_number "can't be longer than %d characters" app.max_player_name_length)
    else if not (app.valid_player_name_regex player_name)
    then err (
        with_string "must match the following regular expression: %s"
          app.config.valid_player_name_regex)
    else ok tt

abbrev pub validate_username : App → Bytes → Result (Unit {0})
validate_username app username = validate_player_name app username

unfoldable pub validate_player_name_or_uuid : App → Bytes → Result (Unit {0})
validate_player_name_or_uuid app player = elim (validate_player_name app player) [
  | ok _ ↦ ok tt
  | err _ ↦ elim (app.uuid_parse player) [
    | err _ ↦ err (text "not a valid player name or UUID")
    | ok _ ↦ ok tt
  ]
]

unfoldable pub validate_password : App → Bytes → Result (Unit {0})
validate_password app password =
    if password == []
    then err (text "can't be blank")
    else if ltb (length password) app.config.min_password_length
    then err
        (with_number "password must be longer than %d characters" app.config.min_password_length)
    else ok tt

-- The account of a transient user. Its UUID is a hash of the name and the instance's key.
unfoldable pub make_transient_user : App → Env → Bytes → Result User
make_transient_user app env player_name = do
  account_uuid ←
      app.uuid_from_bytes
        (take 16 (app.blake3_sum512 (codes "uuid" ++ (player_name ++ app.key_b3_sum512))))
  ok (record {
    is_admin = false;
    is_locked = false;
    uuid = app.uuid_string account_uuid;
    username = player_name;
    password_salt = [];
    password_hash = [];
    server_id = none;
    player_name = player_name;
    offline_uuid = [];
    fallback_player = player_name;
    preferred_language = app.config.default_preferred_language;
    browser_token = none;
    skin_hash = none;
    skin_model = skin_model_classic;
    cape_hash = none;
    created_at = env.now;
    name_last_changed_at = env.now;
  })

abbrev pub preferred_languages : List Bytes
preferred_languages =
    codes "sq"
    ∷ codes "ar"
    ∷ codes "be"
    ∷ codes "bg"
    ∷ codes "ca"
    ∷ codes "zh"
    ∷ codes "hr"
    ∷ codes "cs"
    ∷ codes "da"
    ∷ codes "nl"
    ∷ codes "en"
    ∷ codes "et"
    ∷ codes "fi"
    ∷ codes "fr"
    ∷ codes "de"
    ∷ codes "el"
    ∷ codes "iw"
    ∷ codes "hi"
    ∷ codes "hu"
    ∷ codes "is"
    ∷ codes "in"
    ∷ codes "ga"
    ∷ codes "it"
    ∷ codes "ja"
    ∷ codes "ko"
    ∷ codes "lv"
    ∷ codes "lt"
    ∷ codes "mk"
    ∷ codes "ms"
    ∷ codes "mt"
    ∷ codes "no"
    ∷ codes "nb"
    ∷ codes "nn"
    ∷ codes "pl"
    ∷ codes "pt"
    ∷ codes "ro"
    ∷ codes "ru"
    ∷ codes "sr"
    ∷ codes "sk"
    ∷ codes "sl"
    ∷ codes "es"
    ∷ codes "sv"
    ∷ codes "th"
    ∷ codes "tr"
    ∷ codes "uk"
    ∷ codes "vi"
    ∷ []

unfoldable pub is_valid_preferred_language : Bytes → Bool
unfolding contains
is_valid_preferred_language preferred_language = contains preferred_languages preferred_language

-- Changes one byte; an index out of range changes nothing.
unfoldable pub set_byte : ℕ → (ℕ → ℕ) → Bytes → Bytes
set_byte i f [] = []
set_byte zero f (b ∷ bytes) = f b ∷ bytes
set_byte (suc i) f (b ∷ bytes) = b ∷ set_byte i f bytes

-- The masks of `OfflineUUID`: `& 0x0f | 0x30` and `& 0x3f | 0x80`.
unfoldable pub set_version_and_variant : Bytes → Bytes
unfolding set_byte
set_version_and_variant bytes = set_byte 8 (λ b. b % 64 + 128) (set_byte 6 (λ b. b % 16 + 48) bytes)

-- `OfflineUUID`
unfoldable pub get_offline_uuid : App → Bytes → Result Bytes
unfolding set_version_and_variant
get_offline_uuid app player_name = do
  offline_uuid ←
      app.uuid_from_bytes
        (set_version_and_variant (app.md5_sum (codes "OfflinePlayer:" ++ player_name)))
  ok (app.uuid_string offline_uuid)
