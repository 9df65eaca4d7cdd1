-- ===== src/Examples/Front.antt =====
-- The web front end at concrete inputs.
use drasl.Prelude.{
  inr, ◌≡◌, refl, ◌⊎◌, false, true, none, some, Option, [], ◌∷◌, Bytes, codes, ◌==◌, if◌then◌else◌,
}
use drasl.Util.{contains}
use drasl.Errors.{ok}
use drasl.Flow.{run}
use drasl.App.{App, Image, random_hex, strip_query_param, hex_encode}
use drasl.Model.Types.{User, Invite}
use drasl.Model.Validate.{
  transient_login_eligible, validate_player_name, validate_password, get_offline_uuid,
  set_version_and_variant,
}
use drasl.Database.Tables.{by_username, save_user, put_user, nocase}
use drasl.Database.Memory.{memory, memory-IsLawful, keys_unique}
use drasl.Front.Types.{Visit, Page, Site, Handler}
use drasl.Front.Access.{with_browser_admin}
use drasl.Front.Access.Sound.{with_browser_admin-In}
use drasl.Database.Laws.{In}
use drasl.Front.Login.{front_login}
use drasl.Front.Login.Sound.{session_of, front_login-session}
use drasl.Front.Register.{
  Registration, accept, find_account, new_account, find_invite, choose_uuid, create_in_transaction,
  delete_in_transaction, commit_registration, front_register,
}
use drasl.Front.NewUser.{make_user}
use drasl.Front.Register.Atomic.{IsRegistered, front_register-atomic}
use drasl.Front.Challenge.{embed_challenge, read_challenge}
use drasl.Front.Challenge.Window.{read_challenge-embed_challenge}
use drasl.Front.Admin.{update_users}
use drasl.Front.Admin.Safe.{update_users-users}
use drasl.Examples.Setup.{alice, app, env, tables}

abbrev site : Site
site = record { world = record { tables = tables; skins = []; capes = [] }; cookies = [] }

abbrev visit : Visit
visit = record {
  form_return_url = [];
  query_return_url = [];
  query_username = [];
  browser_token = none;
}

abbrev login_result : Page × Site
login_result = run (front_login app env memory visit (codes "alice") (codes "pw")) site

login_session : session_of login_result.1.cookies ≡ some (codes "07")
unfolding front_login transient_login_eligible memory keys_unique random_hex hex_encode session_of
    put_user ◌==◌ nocase
login_session = refl

front_login-session_example :
    (user : User) × (transient_login_eligible app (codes "alice") ≡ false)
    × (memory.first_user (by_username (codes "alice")) tables ≡ ok user)
    × (user.is_locked ≡ false)
    × (app.scrypt_key (codes "pw") user.password_salt ≡ ok user.password_hash)
    × (random_hex env 32 ≡ ok (codes "07"))
    × (login_result.1.tables
        ≡ (memory.exec (save_user (record user { browser_token = some (codes "07") })) tables).1)
front_login-session_example =
    front_login-session app env memory visit (codes "alice") (codes "pw") (codes "07") site
      login_result.1 login_result.0 refl refl login_session

abbrev invite : Invite
invite = record { code = codes "inv"; created_at = 0 }

abbrev invited_app : App
invited_app = record app {
  config = record app.config {
    registration_new_player = record {
      allow = true;
      allow_choosing_uuid = false;
      require_invite = true;
    };
  };
}

abbrev invited_site : Site
invited_site = record site {
  world = record site.world { tables = record tables { invites = invite ∷ [] } };
}

abbrev form : Registration
form = record {
  username = codes "Bob";
  email = [];
  password = codes "password";
  uuid = [];
  existing_player = false;
  challenge_token = [];
  invite_code = codes "inv";
}

abbrev register_result : Page × Site
register_result = run (front_register invited_app env memory (codes "home") visit form) invited_site

-- This registration succeeds.
register_session : session_of register_result.1.cookies ≡ some (codes "07")
unfolding front_register accept find_account new_account find_invite choose_uuid make_user
    create_in_transaction delete_in_transaction commit_registration strip_query_param
    validate_player_name validate_password transient_login_eligible get_offline_uuid
    set_version_and_variant random_hex hex_encode memory keys_unique session_of contains ◌==◌ nocase
register_session = refl

front_register-atomic_example :
    ((register_result.1.tables ≡ invited_site.tables)
      × (session_of register_result.1.cookies ≡ none))
    ⊎ ((user : User) × (used : Option Invite) × IsRegistered invited_app form invited_site
          register_result.1 user used)
front_register-atomic_example =
    front_register-atomic invited_app env memory (codes "home") visit form invited_site
      register_result.1 register_result.0 memory-IsLawful refl refl

abbrev blank : Image
blank = λ x y. (0, 0, 0, 255)

abbrev challenge : Bytes
challenge = codes "0123456789abcdef0123456789abcdef0123456789abcdef0123456789abcdef"

read_challenge-embed_challenge_example :
    read_challenge (embed_challenge challenge blank) ≡ challenge
read_challenge-embed_challenge_example = read_challenge-embed_challenge challenge blank refl

-- A form that locks every user.
abbrev locking_form : Bytes → Bytes
locking_form = λ _. codes "on"

abbrev update_result : Page × Site
update_result = run (update_users app memory visit locking_form) site

update_users-users_example : update_result.1.tables.users ≡ tables.users
update_users-users_example =
    update_users-users app memory visit locking_form site update_result.1 update_result.0
      memory-IsLawful (inr refl, tt) refl

abbrev admin : User
admin = record alice { is_admin = true; browser_token = some (codes "tok") }

abbrev admin_site : Site
admin_site = record site {
  world = record site.world { tables = record tables { users = admin ∷ [] } };
}

abbrev admin_visit : Visit
admin_visit = record visit { browser_token = some (codes "tok") }

abbrev admin_handler : User → Handler Page
admin_handler = λ user. update_users app memory admin_visit (λ _. codes "on")

abbrev admin_result : Page × Site
admin_result = run (with_browser_admin app memory admin_visit admin_handler) admin_site

with_browser_admin-In_example :
    (admin_result.1.tables ≡ admin_site.tables)
    ⊎ ((user : User) × (value : Bytes) × In user admin_site.tables.users
        × (user.is_admin ≡ true)
        × (admin_visit.browser_token ≡ some value)
        × (user.browser_token ≡ some value)
        × (run (admin_handler user) admin_site ≡ (admin_result.0, admin_result.1)))
with_browser_admin-In_example =
    with_browser_admin-In app memory admin_visit admin_handler admin_site admin_result.1
      admin_result.0 memory-IsLawful refl

-- A form that keeps the administrator and locks nobody.
abbrev rights_form : Bytes → Bytes
rights_form = λ name. if name == codes "admin-alice" then codes "on" else []

abbrev rights_result : Page × Site
rights_result = run (update_users app memory visit rights_form) site
