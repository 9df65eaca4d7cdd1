-- ===== src/Model/Types.antt =====
-- The records of model.go. A time is in nanoseconds since 1970.
use drasl.Prelude.{ℕ, ◌*◌, Bool, false, Option, none, [], Bytes, codes}

-- A row of `clients`; `User` is loaded beside it.
pub record Client : Type 0 where
  pub uuid : Bytes
  pub client_token : Bytes
  pub version : ℕ
  pub user_uuid : Bytes

-- A row of `users`; `Clients` is a table of its own.
pub record User : Type 0 where
  pub is_admin : Bool
  pub is_locked : Bool
  pub uuid : Bytes
  pub username : Bytes
  pub password_salt : Bytes
  pub password_hash : Bytes
  pub server_id : Option Bytes
  pub player_name : Bytes
  pub offline_uuid : Bytes
  pub fallback_player : Bytes
  pub preferred_language : Bytes
  pub browser_token : Option Bytes
  pub skin_hash : Option Bytes
  pub skin_model : Bytes
  pub cape_hash : Option Bytes
  pub created_at : ℕ
  pub name_last_changed_at : ℕ

-- `User{}`
abbrev pub zero_user : User
zero_user = record {
  is_admin = false;
  is_locked = false;
  uuid = [];
  username = [];
  password_salt = [];
  password_hash = [];
  server_id = none;
  player_name = [];
  offline_uuid = [];
  fallback_player = [];
  preferred_language = [];
  browser_token = none;
  skin_hash = none;
  skin_model = [];
  cape_hash = none;
  created_at = 0;
  name_last_changed_at = 0;
}

pub record Invite : Type 0 where
  pub code : Bytes
  pub created_at : ℕ

-- The claims of an access token that the program sets or reads.
pub record TokenClaims : Type 0 where
  pub subject : Bytes
  pub issued_at : ℕ
  pub expires_at : ℕ
  pub version : ℕ
  pub stale_at : ℕ

pub data StaleTokenPolicy : Type 0 where
  stale_policy_allow stale_policy_deny : StaleTokenPolicy

abbrev pub second : ℕ
second = 1000000000

-- 2038-01-01T00:00:00Z
abbrev pub distant_future : ℕ
distant_future = 2145916800 * second

abbrev pub skin_model_slim : Bytes
skin_model_slim = codes "slim"

abbrev pub skin_model_classic : Bytes
skin_model_classic = codes "classic"
