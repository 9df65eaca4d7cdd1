-- ===== src/Examples/Server.antt =====
-- The start of the server, errors, keys and the migration at concrete inputs.
use drasl.Prelude.{
  ◌+◌, ◌≡◌, refl, ◌⊎◌, ◌||◌, true, false, Option, none, some, [], ◌∷◌, arith, Bytes, codes, ◌==◌,
  any, length,
}
use drasl.Util.{contains, contains_public_key}
use drasl.Util.Contains.{IsUnique}
use drasl.Errors.{Error, ok}
use drasl.App.{App, Env}
use drasl.Config.Types.{FallbackApiServer}
use drasl.Database.Tables.{Tables}
use drasl.Database.Migrate.{Store, Migrator, migrate}
use drasl.Database.Migrate.Filled.{IsMigrated, IsCurrent, migrate-IsMigrated}
use drasl.Front.Types.{Visit}
use drasl.Services.Keys.{KeyFormats, Keys, setup_keys}
use drasl.Services.Keys.Merged.{server_offers, setup_keys-contains}
use drasl.Services.Certificates.{hex_number, signed_data_v2}
use drasl.Services.Certificates.Width.{length-signed_data_v2}
use drasl.Injector.{skin_domains_of}
use drasl.Injector.Domains.{skin_domains_of-contains}
use drasl.Server.{Failure, http_error, skips_rate_limit}
use drasl.Server.Failures.{IsHidden, HasCode, handle_error-status}
use drasl.Examples.Setup.{app, env, alice, alice_client, tables}

abbrev other_server : FallbackApiServer
other_server = record {
  nickname = codes "other";
  session_url = codes "s";
  account_url = codes "a";
  services_url = codes "v";
  skin_domains = codes "here" ∷ codes "there" ∷ [];
  cache_ttl_seconds = 0;
  deny_unknown_users = false;
}

abbrev app_with_fallback : App
app_with_fallback = record app {
  config = record app.config {
    domain = codes "here";
    fallback_api_servers = other_server ∷ [];
    default_admins = codes "alice" ∷ [];
    registration_new_player = record {
      allow = true;
      allow_choosing_uuid = false;
      require_invite = true;
    };
  };
}

abbrev formats : KeyFormats
formats = record {
  parse_public_key = λ der. ok der;
  marshal_public_key = λ key. key;
  decode_public_keys = λ body. ok (record {
    player_certificate_keys = codes "mine" ∷ codes "k" ∷ [];
    profile_property_keys = codes "k" ∷ codes "k" ∷ [];
  });
}

abbrev serving : Env
serving = record env { http_get = λ _. ok (record { status = 200; body = [] }) }

abbrev keys : Keys
keys = (codes "mine" ∷ codes "k" ∷ [], codes "mine" ∷ codes "k" ∷ [])

keys_run : setup_keys app_with_fallback serving formats (codes "mine") ≡ ok keys
unfolding setup_keys contains_public_key ◌==◌
keys_run = refl

setup_keys-contains_example :
    IsUnique keys.0
    × IsUnique keys.1
    × (contains keys.0 (codes "k") ≡ (
        codes "mine" == codes "k"
        || any
            (server_offers app_with_fallback serving formats
              (codes "k")
              (λ r. r.profile_property_keys))
            app_with_fallback.config.fallback_api_servers))
    × (contains keys.1 (codes "k") ≡ (
        codes "mine" == codes "k"
        || any
            (server_offers app_with_fallback serving formats
              (codes "k")
              (λ r. r.player_certificate_keys))
            app_with_fallback.config.fallback_api_servers))
setup_keys-contains_example =
    setup_keys-contains app_with_fallback serving formats (codes "mine") (codes "k") keys keys_run

skin_domains_of-contains_example :
    IsUnique (skin_domains_of app_with_fallback)
    × (contains (skin_domains_of app_with_fallback) (codes "there") ≡ (
        app_with_fallback.config.domain == codes "there"
        || any
            (λ (s : FallbackApiServer). any (λ x. x == codes "there") s.skin_domains)
            app_with_fallback.config.fallback_api_servers))
skin_domains_of-contains_example = skin_domains_of-contains app_with_fallback (codes "there")

-- An ID that starts with a zero byte
abbrev id : Bytes
id = codes "00ffffffffffffffffffffffffffffff"

id_number : hex_number 0 id ≡ 1329227995784915872903807060280344575
unfolding hex_number
id_number = refl

length-signed_data_v2_example : length (signed_data_v2 id 5 (codes "key")) ≡ 14 + 9 + 3
unfolding hex_number
length-signed_data_v2_example =
    length-signed_data_v2 id (codes "key") 5 14 (omega arith) (omega arith) (omega arith)

abbrev failure : Failure
failure = http_error 404 (some (codes "Not Found"))

handle_error-status_example : IsHidden (codes "/users") failure ⊎ HasCode (codes "/users") failure
handle_error-status_example = handle_error-status (codes "/users") failure

abbrev visit : Visit
visit = record {
  form_return_url = [];
  query_return_url = [];
  query_username = [];
  browser_token = none;
}

login_limited : skips_rate_limit (codes "/drasl/login") ≡ false
unfolding skips_rate_limit ◌==◌
login_limited = refl

abbrev after_start : Tables
after_start = record tables { users = record alice { is_admin = true } ∷ [] }

abbrev migrator : Migrator
migrator = record {
  read_version = none;
  add_offline_uuid = none;
  find = none;
  update_offline_uuid = λ _. none;
  rename_client_token = none;
  add_client_token = none;
  update_client_token = none;
  auto_migrate_user = none;
  auto_migrate_client = none;
  auto_migrate_invite = none;
  write_version = none;
  commit = none;
}

abbrev store : Store
store = record { user_version = 1; tables = tables }

abbrev migrated : Store
migrated = record {
  user_version = 2;
  tables = record tables { clients = record alice_client { client_token = codes "c" } ∷ [] };
}

migrate_run : migrate app migrator true store ≡ (none, migrated)
unfolding migrate
migrate_run = refl

migrate-IsMigrated_example :
    ((migrated ≡ store)
      × ((e : Error) × ((◌≡◌ {A = Option Error} none (some e)) ⊎ (migrator.read_version ≡ some e))))
    ⊎ ((◌≡◌ {A = Option Error} none none) × IsMigrated app 1 tables migrated.tables × IsCurrent 1 2)
migrate-IsMigrated_example = migrate-IsMigrated app migrator store migrated none migrate_run
