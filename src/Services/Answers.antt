-- ===== src/Services/Answers.antt =====
-- The handlers of services.go that answer from the user's row, or with constants.
use drasl.Prelude.{ℕ, Bool, true, false, List, [], Bytes, codes}
use drasl.Flow.{Exec, pure}
use drasl.Http.{Reply, json, status_ok}
use drasl.App.{App, Env, CachedGet}
use drasl.Database.Tables.{Tables, Database}
use drasl.Services.Profile.{get_services_profile}
use drasl.Services.{Call, Service, profile_reply, with_bearer_authentication}

-- GET /minecraft/profile
unfoldable pub services_profile_information :
    App → Env → Database → CachedGet → Call → Service Tables
unfolding with_bearer_authentication
services_profile_information app env db cached_get req =
    with_bearer_authentication app env db (λ t. t) req
      (λ user. pure (profile_reply (get_services_profile app cached_get user)))

-- `playerAttributesResponse`; the scopes of the ban status are empty.
pub record PlayerAttributesResponse : Type 0 where
  pub online_chat : Bool
  pub multiplayer_server : Bool
  pub multiplayer_realms : Bool
  pub telemetry : Bool
  pub optional_telemetry : Bool
  pub profanity_filter_on : Bool

pub record NameChangeResponse : Type 0 where
  pub changed_at : Bytes
  pub created_at : Bytes
  pub name_change_allowed : Bool

pub record MsaMigrationResponse : Type 0 where
  pub feature : Bytes
  pub rollout : Bool

abbrev pub Answer : Type 0 → Type 0
Answer A = Exec Tables (Reply A) (Reply A)

-- GET /player/attributes
unfoldable pub services_player_attributes :
    App → Env → Database → Call → Answer PlayerAttributesResponse
unfolding with_bearer_authentication
services_player_attributes app env db req =
    with_bearer_authentication app env db (λ t. t) req
      (λ user. pure (
        json status_ok (record {
          online_chat = true;
          multiplayer_server = true;
          multiplayer_realms = false;
          telemetry = false;
          optional_telemetry = false;
          profanity_filter_on = false;
        })))

-- GET /minecraft/profile/namechange; `format_time` is `Format(time.RFC3339Nano)`.
unfoldable pub services_name_change :
    App → Env → Database → (ℕ → Bytes) → Call → Answer NameChangeResponse
unfolding with_bearer_authentication
services_name_change app env db format_time req =
    with_bearer_authentication app env db (λ t. t) req
      (λ user. pure (
        json status_ok (record {
          changed_at = format_time user.name_last_changed_at;
          created_at = format_time user.created_at;
          name_change_allowed = app.config.allow_changing_player_name;
        })))

-- GET /rollout/v1/msamigration
unfoldable pub services_msa_migration : App → Env → Database → Call → Answer MsaMigrationResponse
unfolding with_bearer_authentication
services_msa_migration app env db req =
    with_bearer_authentication app env db (λ t. t) req
      (λ user. pure (json status_ok (record { feature = codes "msamigration"; rollout = false })))

-- GET /privacy/blocklist
unfoldable pub services_blocklist : App → Env → Database → Call → Answer (List Bytes)
unfolding with_bearer_authentication
services_blocklist app env db req =
    with_bearer_authentication app env db (λ t. t) req (λ user. pure (json status_ok []))
