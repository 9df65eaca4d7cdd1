-- ===== src/Examples/Session.antt =====
-- Sessions and changes of name at concrete inputs.
use drasl.Prelude.{◌≡◌, refl, any, false, true, some, [], ◌∷◌, Bytes, codes, ◌==◌}
use drasl.Errors.{text, ok, err}
use drasl.Flow.{run}
use drasl.Http.{json, no_content, status_ok, status_no_content}
use drasl.App.{CachedGet, ProfileProperty, ProfileResponse}
use drasl.Model.Types.{User, Client, stale_policy_deny}
use drasl.Model.Ids.{uuid_to_id}
use drasl.Model.Validate.{validate_player_name, transient_login_eligible}
use drasl.Model.Tokens.{get_client}
use drasl.Database.Tables.{Tables, by_player_name, matches, nocase, put_user}
use drasl.Database.Laws.{HasUniqueKeys, In}
use drasl.Database.Memory.{memory, memory-IsLawful, keys_unique, HasUniqueKeys-keys_unique}
use drasl.Session.{SessionJoinRequest, with_server, session_join, full_profile, session_has_joined}
use drasl.Session.Joined.{session_join-session_has_joined, session_has_joined-In}
use drasl.Services.Profile.{ServicesProfile, get_services_profile}
use drasl.Services.{
  Call, bearer_token, services_profile, name_availability, rename_user, change_name,
  services_change_name, name_status, with_bearer_authentication,
}
use drasl.Services.Names.{IsRenamed, services_change_name-IsRenamed, name_status-available}
use drasl.Skins.{forwards, skin_textures_property}
use drasl.Skins.Fallback.{fallback_skin_textures_property}
use drasl.Examples.Setup.{app, env, uuid_a, alice, alice_client, tables, alice_token}

tables_unique : HasUniqueKeys tables
unfolding keys_unique ◌==◌ nocase
tables_unique = HasUniqueKeys-keys_unique tables refl

abbrev property : ProfileProperty
property = record {
  name = codes "textures";
  value = codes "Alice";
  signature = some (codes "Alice");
}

abbrev unreachable : CachedGet
unreachable = λ _ _. err (text "unreachable")

abbrev join_request : SessionJoinRequest
join_request = record { access_token = alice_token; selected_profile = []; server_id = codes "srv" }

abbrev joined : Tables
joined = record tables { users = with_server alice (codes "srv") ∷ [] }

join_run :
    run (session_join app env memory (ok join_request)) tables
    ≡ (no_content status_no_content, joined)
unfolding session_join get_client memory keys_unique ◌==◌ put_user nocase
join_run = refl

accepted :
    get_client app memory env.now alice_token stale_policy_deny tables ≡ some (alice_client, alice)
unfolding get_client memory ◌==◌
accepted = refl

abbrev profile : ProfileResponse
profile = record {
  id = codes "aaaaaaaaaaaaaaaaaaaaaaaaaaaaaaaa";
  name = codes "Alice";
  properties = property ∷ [];
}

made : full_profile app env unreachable (with_server alice (codes "srv")) uuid_a true ≡ ok profile
unfolding full_profile skin_textures_property fallback_skin_textures_property uuid_to_id ◌==◌
made = refl

found :
    memory.first_user (by_player_name (codes "alice")) joined ≡ ok (with_server alice (codes "srv"))
unfolding memory ◌==◌ nocase
found = refl

session_join-session_has_joined_example :
    session_has_joined app env memory unreachable (codes "alice") (codes "srv") joined
    ≡ json status_ok profile
session_join-session_has_joined_example =
    session_join-session_has_joined app env env memory unreachable join_request (codes "alice")
      tables joined alice_client alice (with_server alice (codes "srv")) profile memory-IsLawful
      tables_unique accepted join_run found refl made

has_joined_run :
    session_has_joined app env memory unreachable (codes "alice") (codes "srv") joined
    ≡ json status_ok profile
unfolding session_has_joined memory full_profile skin_textures_property
    fallback_skin_textures_property uuid_to_id ◌==◌ nocase
has_joined_run = refl

session_has_joined-In_example :
    (user : User) × In user joined.users
    × (nocase user.player_name ≡ nocase (codes "alice"))
    × (user.server_id ≡ some (codes "srv"))
    × (full_profile app env unreachable user user.uuid true ≡ ok profile)
session_has_joined-In_example =
    session_has_joined-In app env memory unreachable (codes "alice") (codes "srv") joined profile
      memory-IsLawful has_joined_run

abbrev request : Call
request = record {
  path = codes "/";
  authorization = 66 ∷ 101 ∷ 97 ∷ 114 ∷ 101 ∷ 114 ∷ 32 ∷ alice_token;
}

abbrev renamed : Tables
renamed = record tables {
  users = record alice { player_name = codes "Bob"; name_last_changed_at = env.now } ∷ [];
}

abbrev answer : ServicesProfile
answer = record {
  id = codes "aaaaaaaaaaaaaaaaaaaaaaaaaaaaaaaa";
  name = codes "Bob";
  skins = [];
  capes = [];
}

rename_run :
    run (services_change_name app env memory unreachable request (codes "Bob")) tables
    ≡ (json status_ok (services_profile answer), renamed)
unfolding services_change_name get_services_profile fallback_skin_textures_property forwards
    uuid_to_id with_bearer_authentication bearer_token change_name rename_user validate_player_name
    transient_login_eligible get_client memory keys_unique put_user ◌==◌ nocase
rename_run = refl

services_change_name-IsRenamed_example :
    (token : Bytes) × (c : Client) × (u : User) × (u' : User) × IsRenamed app env memory unreachable
      request
      (codes "Bob")
      tables
      renamed
      answer
      token
      c
      u
      u'
services_change_name-IsRenamed_example =
    services_change_name-IsRenamed app env memory unreachable request (codes "Bob") tables renamed
      answer memory-IsLawful rename_run

status_run :
    name_status app memory [] (codes "Bob") tables
    ≡ json status_ok (name_availability (codes "AVAILABLE"))
unfolding name_status validate_player_name transient_login_eligible memory ◌==◌ nocase
status_run = refl

name_status-available_example :
    (app.config.allow_changing_player_name ≡ true)
    × (validate_player_name app (codes "Bob") ≡ ok tt)
    × (any (matches (by_player_name (codes "Bob"))) tables.users ≡ false)
name_status-available_example =
    name_status-available app memory [] (codes "Bob") tables memory-IsLawful status_run
