-- ===== src/Examples/System.antt =====
-- A history of requests.
use drasl.Prelude.{
  ◌*◌, ◌≡◌, ◌≢◌, refl, inl, none, some, List, [], ◌∷◌, Bytes, codes, ◌==◌, eq_iff, arith, false,
}
use drasl.Errors.{ok, err, text}
use drasl.App.{Env}
use drasl.Model.Types.{TokenClaims, second, stale_policy_allow}
use drasl.Model.Tokens.{get_client}
use drasl.Database.Tables.{by_username, nocase}
use drasl.Database.Laws.{HasUniqueKeys}
use drasl.Database.Memory.{memory, memory-IsLawful, keys_unique, HasUniqueKeys-keys_unique}
use drasl.Textures.{World, Disk}
use drasl.Front.Types.{Visit}
use drasl.System.{serve, Request, Server, authenticate, refresh, signout, login, logout, serve_all}
use drasl.Flow.{run}
use drasl.Http.{no_content, status_no_content}
use drasl.Auth.{auth_signout}
use drasl.Auth.Types.{SignoutRequest}
use drasl.System.Revoked.{serve_all_signed_out, serve_all_revoked}
use drasl.Examples.Setup.{alice, app, env, tables, alice_client, alice_token, toy-AreTokens}

abbrev disk : Disk
disk = record {
  stat = λ _. none;
  mkdir_all = none;
  create = λ _. none;
  write = λ _ _. none;
  remove = λ _. none;
}

abbrev server : Server
server = record {
  app = app;
  db = memory;
  disk = disk;
  cached_get = λ _ _. err (text "unreachable");
  download = λ _. err (text "unreachable");
  profile_url = codes "profile";
  admin_url = codes "admin";
}

abbrev visit : Visit
visit = record {
  form_return_url = [];
  query_return_url = [];
  query_username = [];
  browser_token = none;
}

abbrev signout_request : SignoutRequest
signout_request = record { username = codes "alice"; password = codes "pw" }

-- A sign-in, a refresh and a signout, with visits of the web pages between them.
abbrev requests : List (Env × Request)
requests =
    (env, login visit (codes "alice") (codes "pw"))
    ∷ (
      env,
      authenticate (
          ok (record {
            username = codes "alice";
            password = codes "pw";
            client_token = none;
            agent = none;
            request_user = false;
          })),
    )
    ∷ (
      env,
      refresh (
          ok (record {
            access_token = alice_token;
            client_token = codes "ct";
            request_user = false;
          })),
    )
    ∷ (env, signout (ok signout_request))
    ∷ (env, logout visit)
    ∷ []

abbrev world : World
world = record { tables = tables; skins = []; capes = [] }

world-HasUniqueKeys : HasUniqueKeys world.tables
unfolding keys_unique ◌==◌ nocase
world-HasUniqueKeys = HasUniqueKeys-keys_unique world.tables refl

-- A token of the version before the client's.
abbrev older_token : Bytes
older_token = 2 ∷ 0 ∷ (100 * second) ∷ (100 * second) ∷ codes "c"

abbrev older_claims : TokenClaims
older_claims = record {
  subject = codes "c";
  issued_at = 0;
  expires_at = 100 * second;
  version = 2;
  stale_at = 100 * second;
}

other_uuid : env.new_uuid ≢ alice_client.uuid
unfolding ◌==◌
other_uuid e =
    let no : (env.new_uuid == alice_client.uuid) ≡ false = refl in
    cc (no, (eq_iff env.new_uuid alice_client.uuid).1 e)

serve_all_revoked_example :
    get_client app memory
      (6 * second)
      older_token
      stale_policy_allow
      (serve_all server requests world).tables
    ≡ none
serve_all_revoked_example =
    serve_all_revoked server requests world alice_client older_token older_claims (5 * second)
      (6 * second) stale_policy_allow toy-AreTokens memory-IsLawful world-HasUniqueKeys (inl refl)
      refl refl (omega arith)
      (other_uuid, (other_uuid, (other_uuid, (other_uuid, (other_uuid, tt)))))

signout_answer :
    (run (auth_signout app env memory (ok signout_request)) tables).0 ≡ no_content status_no_content
unfolding auth_signout memory keys_unique ◌==◌ nocase
signout_answer = refl

alice_known : memory.first_user (by_username (codes "alice")) tables ≡ ok alice
unfolding memory ◌==◌
alice_known = refl

token_accepted :
    get_client app memory (5 * second) alice_token stale_policy_allow tables
    ≡ some (alice_client, alice)
unfolding get_client memory ◌==◌
token_accepted = refl

serve_all_signed_out_example :
    get_client app memory
      (6 * second)
      alice_token
      stale_policy_allow
      (serve_all server requests (serve server env (signout (ok signout_request)) world)).tables
    ≡ none
serve_all_signed_out_example =
    serve_all_signed_out server env signout_request requests world alice alice alice_client
      alice_token (5 * second) (6 * second) stale_policy_allow stale_policy_allow toy-AreTokens
      memory-IsLawful world-HasUniqueKeys signout_answer alice_known token_accepted refl
      (other_uuid, (other_uuid, (other_uuid, (other_uuid, (other_uuid, tt)))))
