-- ===== src/Front/Types.antt =====
-- What the front end's handlers read of a request and write to a response.
use drasl.Prelude.{Bool, Option, none, some, List, [], ◌∷◌, Bytes, ◌++◌}
use drasl.Errors.{Error, Result, ok, err}
use drasl.Flow.{Exec, next, done, pure, stop}
use drasl.Model.Types.{User, Invite}
use drasl.Database.Tables.{Tables}
use drasl.Textures.{World}

-- The return URLs of a request and the name in its query, and the `browserToken` cookie.
pub record Visit : Type 0 where
  pub form_return_url : Bytes
  pub query_return_url : Bytes
  pub query_username : Bytes
  pub browser_token : Option Bytes

pub data Cookie : Type 0 where
  success_message : Error → Cookie
  error_message : Error → Cookie
  browser_token : Bytes → Cookie
  challenge_token : Bytes → Cookie
  -- an empty `browserToken` with a negative age
  clear_browser_token : Cookie

-- The contexts of the templates, but for the App, the URL and the last messages
pub record ProfileView : Type 0 where
  pub user : User
  pub profile_user : User
  pub profile_user_id : Bytes
  pub skin_url : Option Bytes
  pub cape_url : Option Bytes
  pub admin_view : Bool

pub record ChallengeView : Type 0 where
  pub user : Option User
  pub username : Bytes
  pub skin_base64 : Bytes
  pub skin_filename : Bytes
  pub challenge_token : Bytes
  pub invite_code : Bytes

pub data View : Type 0 where
  root_view : Option User → View
  registration_view : Option User → Bytes → View
  admin_view : User → List User → List Invite → View
  profile_view : ProfileView → View
  challenge_skin_view : ChallengeView → View

pub data Page : Type 0 where
  -- `return err`
  failed : Error → Page
  -- `return nil` with no response written
  silent : Page
  -- 303 See Other
  redirect : Bytes → Page
  -- `c.NoContent(http.StatusBadRequest)`
  bad_request : Page
  -- 200 OK
  rendered : View → Page

-- The world, and the cookies that were set.
pub record Site : Type 0 where
  pub world : World
  pub open world use *
  pub cookies : List Cookie

abbrev pub Handler : Type 0 → Type 0
Handler A = Exec Site Page A

abbrev pub set_cookie : Cookie → Handler (Unit {0})
set_cookie cookie s = (next tt, record s { cookies = s.cookies ++ (cookie ∷ []) })

-- `setErrorMessage(&c, message); return c.Redirect(http.StatusSeeOther, url)`
abbrev pub refuse : {A : Type 0} → Error → Bytes → Handler A
refuse message url s =
    (done (redirect url), record s { cookies = s.cookies ++ (error_message message ∷ []) })

-- `if err != nil { return err }`
abbrev pub try : {A : Type 0} → Result A → Handler A
try (ok a) = pure a
try (err e) = stop (failed e)

abbrev pub check : Option Error → Handler (Unit {0})
check none = pure tt
check (some e) = stop (failed e)

abbrev pub with_tables : Site → Tables → Site
with_tables s t = record s { world = record s.world { tables = t } }

-- A call on the tables, its error for the rest of the handler.
abbrev pub call : (Tables → Option Error × Tables) → Handler (Option Error)
call f s = (next (f s.tables).0, with_tables s (f s.tables).1)
