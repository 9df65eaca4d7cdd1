-- ===== src/Config/Types.antt =====
-- The configuration records of config.go. Left out are `RequestCache`, which a library reads, and
-- the rate in `RateLimit`, a float that goes to the rate limiter as it is.
use drasl.Prelude.{ℕ, Bool, true, false, List, [], Bytes, codes}

pub record FallbackApiServer : Type 0 where
  pub nickname : Bytes
  pub session_url : Bytes
  pub account_url : Bytes
  pub services_url : Bytes
  pub skin_domains : List Bytes
  pub cache_ttl_seconds : ℕ
  pub deny_unknown_users : Bool

pub record TransientUsersConfig : Type 0 where
  pub allow : Bool
  pub username_regex : Bytes
  pub password : Bytes

pub record RegistrationNewPlayerConfig : Type 0 where
  pub allow : Bool
  pub allow_choosing_uuid : Bool
  pub require_invite : Bool

pub record RegistrationExistingPlayerConfig : Type 0 where
  pub allow : Bool
  pub nickname : Bytes
  pub session_url : Bytes
  pub account_url : Bytes
  pub set_skin_url : Bytes
  pub require_skin_verification : Bool
  pub require_invite : Bool

pub record Config : Type 0 where
  pub allow_capes : Bool
  pub allow_changing_player_name : Bool
  pub allow_multiple_access_tokens : Bool
  pub allow_skins : Bool
  pub application_owner : Bytes
  pub base_url : Bytes
  pub body_limit_enable : Bool
  pub body_limit_size_kib : ℕ
  pub data_directory : Bytes
  pub default_admins : List Bytes
  pub default_preferred_language : Bytes
  pub domain : Bytes
  pub enable_background_effect : Bool
  pub fallback_api_servers : List FallbackApiServer
  pub forward_skins : Bool
  pub instance_name : Bytes
  pub listen_address : Bytes
  pub log_requests : Bool
  pub min_password_length : ℕ
  pub rate_limit_enable : Bool
  pub registration_existing_player : RegistrationExistingPlayerConfig
  pub registration_new_player : RegistrationNewPlayerConfig
  pub sign_public_keys : Bool
  pub skin_size_limit : ℕ
  pub offline_skins : Bool
  pub state_directory : Bytes
  pub test_mode : Bool
  pub token_expire_sec : ℕ
  pub token_stale_sec : ℕ
  pub transient_users : TransientUsersConfig
  pub valid_player_name_regex : Bytes

-- `DefaultConfig()`. The two directories are set when the program is built.
abbrev pub default_config : Bytes → Bytes → Config
default_config default_data_directory default_state_directory = record {
  allow_capes = true;
  allow_changing_player_name = true;
  allow_multiple_access_tokens = false;
  allow_skins = true;
  application_owner = codes "Anonymous";
  base_url = [];
  body_limit_enable = true;
  body_limit_size_kib = 8192;
  data_directory = default_data_directory;
  default_admins = [];
  default_preferred_language = codes "en";
  domain = [];
  enable_background_effect = true;
  fallback_api_servers = [];
  forward_skins = true;
  instance_name = codes "Drasl";
  listen_address = codes "0.0.0.0:25585";
  log_requests = true;
  min_password_length = 8;
  rate_limit_enable = true;
  registration_existing_player = record {
    allow = false;
    nickname = [];
    session_url = [];
    account_url = [];
    set_skin_url = [];
    require_skin_verification = false;
    require_invite = false;
  };
  registration_new_player = record {
    allow = true;
    allow_choosing_uuid = false;
    require_invite = false;
  };
  sign_public_keys = true;
  skin_size_limit = 128;
  offline_skins = true;
  state_directory = default_state_directory;
  test_mode = false;
  token_expire_sec = 0;
  token_stale_sec = 0;
  transient_users = record { allow = false; username_regex = []; password = [] };
  valid_player_name_regex = codes "^[a-zA-Z0-9_]+$";
}
