-- ===== src/Examples/Auth.antt =====
-- The authentication server at concrete inputs.
use drasl.Prelude.{◌*◌, ◌≡◌, refl, ◌==◌, eq_iff, Bytes, arith, codes, false, none, some, [], ◌∷◌}
use drasl.Errors.{ok}
use drasl.Flow.{run}
use drasl.Http.{json, no_content, status_ok, status_no_content}
use drasl.App.{Env}
use drasl.Model.Types.{stale_policy_allow, stale_policy_deny, second}
use drasl.Model.Ids.{uuid_to_id}
use drasl.Model.Validate.{transient_login_eligible}
use drasl.Model.Tokens.{get_client, make_access_token}
use drasl.Database.Tables.{
  Tables, apply, by_username, increment_versions, nocase, put_user, put_client, put_clients,
}
use drasl.Database.Laws.{HasUniqueKeys}
use drasl.Database.Memory.{
  memory, memory-IsLawful, memory-Answers, keys_unique, HasUniqueKeys-keys_unique,
}
use drasl.Auth.{
  auth_authenticate, auth_refresh, auth_validate, auth_signout, auth_invalidate, next_version,
  find_or_create_user, check_password, choose_client,
}
use drasl.Auth.Types.{
  AuthenticateRequest, AuthenticateResponse, RefreshRequest, RefreshResponse, TokenRequest,
  SignoutRequest,
}
use drasl.Auth.Revoke.{auth_refresh_revokes, auth_signout_revokes, auth_invalidate_revokes}
use drasl.Auth.Issue.{auth_authenticate-auth_validate, token_request}
use drasl.Examples.Setup.{app, env, uuid_a, alice, alice_client, tables, alice_token, toy-AreTokens}

tables-HasUniqueKeys : HasUniqueKeys tables
unfolding keys_unique ◌==◌ nocase
tables-HasUniqueKeys = HasUniqueKeys-keys_unique tables refl

abbrev id_a : Bytes
id_a = codes "aaaaaaaaaaaaaaaaaaaaaaaaaaaaaaaa"

abbrev refresh_request : RefreshRequest
refresh_request = record {
  access_token = alice_token;
  client_token = codes "ct";
  request_user = false;
}

abbrev refreshed : RefreshResponse
refreshed = record {
  access_token = 4 ∷ (5 * second) ∷ (2145916800 * second) ∷ (2145916800 * second) ∷ codes "c";
  client_token = codes "ct";
  selected_profile = record { id = id_a; name = codes "Alice" };
  available_profiles = record { id = id_a; name = codes "Alice" } ∷ [];
  user = none;
}

abbrev after_refresh : Tables
after_refresh = record tables { clients = next_version alice_client ∷ [] }

refresh_run :
    run (auth_refresh app env memory (ok refresh_request)) tables
    ≡ (json status_ok refreshed, after_refresh)
unfolding auth_refresh get_client memory keys_unique ◌==◌ uuid_to_id make_access_token put_client
    nocase
refresh_run = refl

auth_refresh_revokes_example :
    get_client app memory (6 * second) alice_token stale_policy_allow after_refresh ≡ none
auth_refresh_revokes_example =
    auth_refresh_revokes app memory toy-AreTokens memory-IsLawful env refresh_request tables
      after_refresh refreshed tables-HasUniqueKeys refresh_run (6 * second) stale_policy_allow

abbrev signout_request : SignoutRequest
signout_request = record { username = codes "alice"; password = codes "pw" }

abbrev raised : Tables
raised = apply (increment_versions uuid_a) tables

signout_run :
    run (auth_signout app env memory (ok signout_request)) tables
    ≡ (no_content status_no_content, raised)
unfolding auth_signout memory keys_unique ◌==◌ nocase
signout_run = refl

alice_first : memory.first_user (by_username (codes "alice")) tables ≡ ok alice
unfolding memory ◌==◌
alice_first = refl

alice_accepted :
    get_client app memory (5 * second) alice_token stale_policy_allow tables
    ≡ some (alice_client, alice)
unfolding get_client memory ◌==◌
alice_accepted = refl

auth_signout_revokes_example :
    (app.scrypt_key (codes "pw") alice.password_salt ≡ ok alice.password_hash)
    × (get_client app memory (6 * second) alice_token stale_policy_allow raised ≡ none)
auth_signout_revokes_example =
    auth_signout_revokes app memory toy-AreTokens memory-IsLawful env signout_request tables raised
      tables-HasUniqueKeys signout_run alice alice_first alice_token (5 * second) (6 * second)
      stale_policy_allow stale_policy_allow alice_client alice alice_accepted refl

abbrev invalidate_request : TokenRequest
invalidate_request = record { access_token = alice_token; client_token = codes "ct" }

invalidate_run :
    run (auth_invalidate app env memory (ok invalidate_request)) tables
    ≡ (no_content status_no_content, raised)
unfolding auth_invalidate get_client memory keys_unique ◌==◌ nocase
invalidate_run = refl

auth_invalidate_revokes_example :
    (◌≡◌ {A = Bytes} (codes "ct") (codes "ct"))
    × (get_client app memory (6 * second) alice_token stale_policy_deny raised ≡ none)
auth_invalidate_revokes_example =
    auth_invalidate_revokes app memory toy-AreTokens memory-IsLawful env invalidate_request tables
      raised tables-HasUniqueKeys invalidate_run alice_client alice alice_accepted alice_token
      (5 * second) (6 * second) stale_policy_allow stale_policy_deny alice_client alice
      alice_accepted refl

abbrev authenticate_request : AuthenticateRequest
authenticate_request = record {
  username = codes "alice";
  password = codes "pw";
  client_token = some (codes "ct2");
  agent = none;
  request_user = false;
}

abbrev authenticated : AuthenticateResponse
authenticated = record {
  access_token = 0 ∷ (5 * second) ∷ (2145916800 * second) ∷ (2145916800 * second) ∷ codes "new";
  client_token = codes "ct2";
  selected_profile = none;
  available_profiles = none;
  user = none;
}

-- The other client's version rises, since several access tokens are not allowed.
abbrev after_authenticate : Tables
after_authenticate = record tables {
  clients =
      next_version alice_client
      ∷ record { uuid = codes "new"; client_token = codes "ct2"; version = 0; user_uuid = uuid_a }
      ∷ [];
}

authenticate_run :
    run (auth_authenticate app env memory (ok authenticate_request)) tables
    ≡ (json status_ok authenticated, after_authenticate)
unfolding auth_authenticate transient_login_eligible find_or_create_user check_password
    choose_client memory keys_unique ◌==◌ uuid_to_id make_access_token put_user put_clients nocase
authenticate_run = refl

abbrev later : Env
later = record env { now = 6 * second }

auth_authenticate-auth_validate_example :
    run (auth_validate app later memory (ok (token_request authenticated))) after_authenticate
    ≡ (no_content status_no_content, after_authenticate)
auth_authenticate-auth_validate_example =
    auth_authenticate-auth_validate app memory toy-AreTokens memory-IsLawful memory-Answers env
      later authenticate_request tables after_authenticate authenticated tables-HasUniqueKeys
      (ground (arith, eq_iff (codes "c") (codes "new")), tt) authenticate_run (omega arith)
      (omega arith)
