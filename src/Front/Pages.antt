-- ===== src/Front/Pages.antt =====
-- The handlers of front.go that show a page.
pub mod Shown
pub mod Solvable
use drasl.Prelude.{
  ◌||◌, Bool, true, false, not, Option, none, some, List, [], ◌++◌, Bytes, codes, ◌==◌,
  if◌then◌else◌,
}
use drasl.Errors.{Error, text, with_error, Result, ok, err, ◌>>=◌}
use drasl.Flow
use drasl.Flow.{Exec, next, done, pure, stop, gets}
use drasl.App.{App, Env, Image, random_hex}
use drasl.Model.Types.{User, Invite}
use drasl.Model.Ids.{uuid_to_id}
use drasl.Model.Validate.{validate_username}
use drasl.Database.Tables.{Database, by_username}
use drasl.Skins.{skin_url, cape_url}
use drasl.Front.Types.{
  Visit, ProfileView, ChallengeView, View, root_view, registration_view, admin_view, profile_view,
  challenge_skin_view, challenge_token, error_message, Page, failed, rendered, Handler, set_cookie,
  refuse, try,
}
use drasl.Front.Access.{get_return_url, with_browser_authentication, with_browser_admin, logged_in}
use drasl.Front.Challenge.{get_challenge, embed_challenge}
use drasl.Front.Register.{accept}

-- GET /
unfoldable pub front_root : App → Database → Visit → Handler Page
unfolding with_browser_authentication
front_root app db visit =
    with_browser_authentication app db false visit (λ user. pure (rendered (root_view user)))

-- GET /registration
unfoldable pub front_registration : App → Database → Visit → Bytes → Handler Page
unfolding with_browser_authentication
front_registration app db visit invite_code =
    with_browser_authentication app db false visit
      (λ user. pure (rendered (registration_view user invite_code)))

abbrev admin_page : User → Result (List User) → Result (List Invite) → Page
admin_page user (err e) invites = failed e
admin_page user (ok users) (err e) = failed e
admin_page user (ok users) (ok invites) = rendered (admin_view user users invites)

-- GET /drasl/admin
unfoldable pub front_admin : App → Database → Visit → Handler Page
unfolding with_browser_admin
front_admin app db visit =
    with_browser_admin app db visit
      (λ user s. (next (admin_page user (db.find_users s.tables) (db.find_invites s.tables)), s))

-- The user of a profile page, and whether it is an administrator's view of another user.
unfoldable pub profile_target : App → Database → User → Bytes → Handler (User × Bool)
profile_target app db user profile_username s =
    if profile_username == [] || profile_username == user.username
    then (next (user, false), s)
    else if not user.is_admin
    then refuse (text "You are not an admin.") app.front_end_url s
    else elim (db.first_user (by_username profile_username) s.tables) [
      | ok profile_user ↦ pure (profile_user, true) s
      | err _ ↦ elim (app.url_join_path app.front_end_url (codes "drasl/admin")) [
        | err e ↦
            (Flow.◌>>◌ (set_cookie (error_message (text "User not found."))) (stop (failed e))) s
        | ok return_url ↦ refuse (text "User not found.") return_url s
      ]
    ]

abbrev optional_url : (Bytes → Result Bytes) → Option Bytes → Result (Option Bytes)
optional_url url none = ok none
optional_url url (some hash) = do made ← url hash; ok (some made)

unfoldable pub make_profile_view : App → User → User → Bool → Result ProfileView
unfolding skin_url cape_url
make_profile_view app user profile_user admin = do
  skin ← optional_url (skin_url app) profile_user.skin_hash
  cape ← optional_url (cape_url app) profile_user.cape_hash
  id ← uuid_to_id profile_user.uuid
  ok (record {
    user = user;
    profile_user = profile_user;
    profile_user_id = id;
    skin_url = skin;
    cape_url = cape;
    admin_view = admin;
  })

abbrev profile_page : Result ProfileView → Page
profile_page (ok view) = rendered (profile_view view)
profile_page (err e) = failed e

abbrev show_profile : App → Database → Bytes → User → Handler Page
show_profile app db profile_username user =
    Flow.◌>>=◌ (profile_target app db user profile_username)
      λ target. pure (profile_page (make_profile_view app user target.0 target.1))

-- GET /profile
unfoldable pub front_profile : App → Database → Visit → Bytes → Handler Page
unfolding with_browser_authentication profile_target make_profile_view
front_profile app db visit profile_username =
    with_browser_authentication app db true visit (logged_in (show_profile app db profile_username))

abbrev old_token : Option Bytes → Option Bytes
old_token none = none
old_token (some value) = if value == [] then none else some value

-- The token of the `challengeToken` cookie, or a new one, which is set
unfoldable pub choose_challenge_token : Env → Option Bytes → Handler Bytes
unfolding random_hex
choose_challenge_token env cookie s = elim (old_token cookie) [
  | some token ↦ (next token, s)
  | none ↦
      Flow.◌>>=◌ (try (random_hex env 32))
        (λ token. Flow.◌>>◌ (set_cookie (challenge_token token)) (pure token)) s
]

-- image/png's `Encode` of the 64 rows and columns of a picture
abbrev pub PngEncode : Type 0
PngEncode = Image → Result Bytes

unfoldable pub make_challenge_view :
    App → PngEncode → Image → Option User → Bytes → Bytes → Bytes → Result ChallengeView
unfolding get_challenge embed_challenge
make_challenge_view app png_encode verification_img user username invite_code token = do
  img ← png_encode (embed_challenge (get_challenge app username token) verification_img)
  ok (record {
    user = user;
    username = username;
    skin_base64 = app.base64_encode img;
    skin_filename = username ++ codes "-challenge.png";
    challenge_token = token;
    invite_code = invite_code;
  })

abbrev challenge_page : Result ChallengeView → Page
challenge_page (ok view) = rendered (challenge_skin_view view)
challenge_page (err e) = failed e

-- What the query and the cookies say
pub record ChallengeQuery : Type 0 where
  pub username : Bytes
  pub invite_code : Bytes
  pub challenge_token : Option Bytes

abbrev show_challenge :
    App → Env → PngEncode → Image → Visit → ChallengeQuery → Option User → Handler Page
show_challenge app env png_encode verification_img visit query user =
    Flow.◌>>◌
      (accept (validate_username app query.username) (with_error "Invalid username: %s")
        (get_return_url app visit))
      (Flow.◌>>=◌ (choose_challenge_token env query.challenge_token) λ token. pure (
        challenge_page (
          make_challenge_view app png_encode verification_img user query.username query.invite_code
            token)))

-- GET /challenge-skin; the verification skin is read when the server starts.
unfoldable pub front_challenge_skin :
    App → Env → Database → PngEncode → Image → Visit → ChallengeQuery → Handler Page
unfolding with_browser_authentication accept choose_challenge_token make_challenge_view
front_challenge_skin app env db png_encode verification_img visit query =
    with_browser_authentication app db false visit
      (show_challenge app env png_encode verification_img visit query)
