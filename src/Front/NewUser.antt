-- ===== src/Front/NewUser.antt =====
-- The user that a registration makes.
use drasl.Prelude.{none, some, false, Bytes}
use drasl.Util.{contains}
use drasl.Errors.{Result, ok, ◌>>=◌}
use drasl.App.{App, Env, random_hex}
use drasl.Model.Types.{User, skin_model_classic}
use drasl.Model.Validate.{get_offline_uuid}
use drasl.Auth.{hash_password}

-- The row of the new user, and its session.
unfoldable pub make_user : App → Env → Bytes → Bytes → Bytes → Result (User × Bytes)
make_user app env username account_uuid password = do
  password_salt ← env.rand_read 16
  password_hash ← hash_password app password password_salt
  token ← random_hex env 32
  offline_uuid ← get_offline_uuid app username
  ok (
    record {
      is_admin = contains app.config.default_admins username;
      is_locked = false;
      uuid = account_uuid;
      username = username;
      password_salt = password_salt;
      password_hash = password_hash;
      server_id = none;
      player_name = username;
      offline_uuid = offline_uuid;
      fallback_player = account_uuid;
      preferred_language = app.config.default_preferred_language;
      browser_token = some token;
      skin_hash = none;
      skin_model = skin_model_classic;
      cape_hash = none;
      created_at = env.now;
      name_last_changed_at = env.now;
    },
    token,
  )
