-- ===== src/Front/Access.antt =====
-- Who may call a handler: `getReturnURL`, `withBrowserAuthentication` and `withBrowserAdmin`.
pub mod Sound
use drasl.Prelude.{Bool, true, not, Option, none, some, Bytes, [], ◌==◌, if◌then◌else◌}
use drasl.Errors.{Error, text, ok, err, is_not_found}
use drasl.Flow.{stop, ◌>>◌}
use drasl.App.{App}
use drasl.Model.Types.{User}
use drasl.Database.Tables.{Database, by_browser_token}
use drasl.Front.Types.{Visit, clear_browser_token, Page, silent, Handler, set_cookie, refuse}

unfoldable pub get_return_url : App → Visit → Bytes
get_return_url app visit =
    if not (visit.form_return_url == [])
    then visit.form_return_url
    else if not (visit.query_return_url == [])
    then visit.query_username
    else app.front_end_url

-- No user was found for the cookie. An error of another kind ends the handler with the cookie's own
-- error, which is nil here.
abbrev pub no_user : Error → Bool → Bytes → (Option User → Handler Page) → Handler Page
no_user e require_login return_url f =
    if is_not_found e
    then (if require_login
        then (do set_cookie clear_browser_token; refuse (text "You are not logged in.") return_url)
        else f none)
    else stop silent

unfoldable pub with_browser_authentication :
    App → Database → Bool → Visit → (Option User → Handler Page) → Handler Page
unfolding get_return_url
with_browser_authentication app db require_login visit f s =
    let return_url = get_return_url app visit in
    let anonymous : Handler Page =
      if require_login then refuse (text "You are not logged in.") return_url else f none in
    elim visit.browser_token [
      | none ↦ anonymous s
      | some value ↦
          if value == []
          then anonymous s
          else elim (db.first_user (by_browser_token value) s.tables) [
            | ok user ↦ f (some user) s
            | err e ↦ no_user e require_login return_url f s
          ]
    ]

-- Handlers that require a login are given a user.
abbrev pub logged_in : (User → Handler Page) → Option User → Handler Page
logged_in f none = stop silent
logged_in f (some user) = f user

unfoldable pub with_browser_admin : App → Database → Visit → (User → Handler Page) → Handler Page
unfolding with_browser_authentication
with_browser_admin app db visit f = with_browser_authentication app db true visit (
    logged_in λ user.
      if user.is_admin
      then f user
      else refuse (text "You are not an admin.") (get_return_url app visit))
