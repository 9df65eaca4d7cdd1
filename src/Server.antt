-- ===== src/Server.antt =====
-- main.go and common.go: what surrounds the handlers. Echo, which calls them by its routes, is not
-- part of the program.
pub mod Failures
pub mod Setup
use drasl.Prelude.{
  ℕ, ◌||◌, ◌&&◌, Bool, true, false, not, Option, none, some, List, [], ◌∷◌, Bytes, codes, ◌==◌,
  nat_eq, if◌then◌else◌,
}
use drasl.Util.{contains}
use drasl.Errors.{Error, text}
use drasl.Flow.{next, done}
use drasl.Http.{ErrorResponse}
use drasl.App.{App}
use drasl.Front.Types.{Visit, Page, redirect, Handler, set_cookie, error_message, refuse}
use drasl.Front.Access.{get_return_url}

-- The part of a path up to the next slash
unfoldable pub segment : Bytes → Bytes
segment [] = []
segment (c ∷ path) = let rest = segment path in if nat_eq c b'/' then [] else c ∷ rest

-- What is behind the first slash, if there is one
unfoldable pub after_slash : Bytes → Option Bytes
after_slash [] = none
after_slash (c ∷ path) = let rest = after_slash path in if nat_eq c b'/' then some path else rest

-- `IsYggdrasilPath`: the second part of the split path, if there is one, is not "drasl".
unfoldable pub is_yggdrasil_path : Bytes → Bool
unfolding segment after_slash
is_yggdrasil_path path =
    if path == codes "/"
    then false
    else elim (after_slash path) [ none ↦ true | some rest ↦ not (segment rest == codes "drasl") ]

-- An error of a handler or of echo. The message of an `echo.HTTPError` may be no string.
pub data Failure : Type 0 where
  http_error : ℕ → Option Bytes → Failure
  other_error : Error → Failure

-- What is sent: `c.JSON` or `c.String`
pub data ErrorPage : Type 0 where
  json_page : ℕ → ErrorResponse → ErrorPage
  text_page : ℕ → Bytes → ErrorPage

abbrev path_response : Bytes → ErrorResponse
path_response path = record { path = some path; error = none; error_message = none }

abbrev pub internal_json : ErrorPage
internal_json =
    json_page 500
      (record { path = none; error = none; error_message = some (text "internal server error") })

abbrev pub internal_text : ErrorPage
internal_text = text_page 500 (codes "Internal server error")

-- The cases of the two switches: 404, 413 and 429, for the APIs 405 too
abbrev pub shown_code : ℕ → Bool
shown_code code = nat_eq code 404 || nat_eq code 413 || nat_eq code 429

abbrev yggdrasil_page : Bytes → Failure → ErrorPage
yggdrasil_page path (http_error code message) =
    if shown_code code || nat_eq code 405
    then json_page code (path_response path)
    else internal_json
yggdrasil_page path (other_error e) = internal_json

abbrev front_page : Failure → ErrorPage
front_page (http_error code (some message)) =
    if shown_code code then text_page code message else internal_text
front_page (http_error code none) = internal_text
front_page (other_error e) = internal_text

-- `HandleError`, but for the log
unfoldable pub handle_error : Bytes → Failure → ErrorPage
unfolding is_yggdrasil_path
handle_error path failure =
    if is_yggdrasil_path path then yggdrasil_page path failure else front_page failure

abbrev pub limited_paths : List Bytes
limited_paths =
    codes "/"
    ∷ codes "/drasl/delete-user"
    ∷ codes "/drasl/login"
    ∷ codes "/drasl/logout"
    ∷ codes "/drasl/register"
    ∷ codes "/drasl/update"
    ∷ []

-- `Skipper`: the rate limit is for the paths of the list.
unfoldable pub skips_rate_limit : Bytes → Bool
unfolding contains
skips_rate_limit path = not (contains limited_paths path)

-- What a request that is denied ends with: an error for `HandleError`, or a page
pub data Denial : Type 0 where
  denied_error : Failure → Denial
  denied_page : Error → Bytes → Denial

-- `DenyHandler`
unfoldable pub deny : App → Bytes → Visit → Denial
unfolding is_yggdrasil_path get_return_url
deny app path visit =
    if is_yggdrasil_path path
    then denied_error (http_error 429 (some (codes "Too many requests. Try again later.")))
    else denied_page (text "Too many requests. Try again later.") (get_return_url app visit)
