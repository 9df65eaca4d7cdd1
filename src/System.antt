-- ===== src/System.antt =====
-- The requests that the server serves, over the state that they share. The routes are those of
-- main.go; a request comes with what the system gives to it.
pub mod Keeps
pub mod Revoked
use drasl.Prelude.{List, [], ◌∷◌, Option, none, some, Bytes}
use drasl.Errors.{Result}
use drasl.App.{App, Env, CachedGet}
use drasl.Database.Tables.{Tables, Database}
use drasl.Auth.Types.{AuthenticateRequest, RefreshRequest, TokenRequest, SignoutRequest}
use drasl.Auth.{auth_authenticate, auth_refresh, auth_validate, auth_signout, auth_invalidate}
use drasl.Session.{SessionJoinRequest, session_join}
use drasl.Services.{Call, services_change_name, services_reset_texture, services_upload_skin}
use drasl.Textures.{Kind, World, Disk, Upload}
use drasl.Front.Types.{Visit, Site}
use drasl.Front.Login.{front_login, front_logout, front_delete_user}
use drasl.Front.Register.{Registration, front_register}
use drasl.Front.Admin.{front_delete_invite, front_new_invite, front_update_users}
use drasl.Front.Fields.{UpdateForm, Download}
use drasl.Front.Update.{front_update}

-- A request to one of the routes whose handlers change the state
pub data Request : Type 0 where
  authenticate : Result AuthenticateRequest → Request
  refresh : Result RefreshRequest → Request
  signout : Result SignoutRequest → Request
  invalidate : Result TokenRequest → Request
  join : Result SessionJoinRequest → Request
  change_player_name : Call → Bytes → Request
  reset_texture : Kind → Call → Request
  upload_skin : Call → Bytes → Option Upload → Request
  login : Visit → Bytes → Bytes → Request
  logout : Visit → Request
  delete_account : Visit → Bytes → Request
  register : Visit → Registration → Request
  delete_invite : Visit → Bytes → Request
  new_invite : Visit → Request
  update_rights : Visit → (Bytes → Bytes) → Request
  update_account : Visit → UpdateForm → Request

-- What a server is made of besides its state; the URLs are joined when it starts.
pub record Server : Type 0 where
  pub app : App
  pub db : Database
  pub disk : Disk
  pub cached_get : CachedGet
  pub download : Download
  pub profile_url : Bytes
  pub admin_url : Bytes

abbrev with_tables : World → Tables → World
with_tables w t = record w { tables = t }

abbrev pub site : World → Site
site w = record { world = w; cookies = [] }

-- The state after one request
unfoldable pub serve : Server → Env → Request → World → World
serve s env (authenticate bound) w =
    with_tables w (auth_authenticate s.app env s.db bound w.tables).1
serve s env (refresh bound) w = with_tables w (auth_refresh s.app env s.db bound w.tables).1
serve s env (signout bound) w = with_tables w (auth_signout s.app env s.db bound w.tables).1
serve s env (invalidate bound) w = with_tables w (auth_invalidate s.app env s.db bound w.tables).1
serve s env (join bound) w = with_tables w (session_join s.app env s.db bound w.tables).1
serve s env (change_player_name req player_name) w =
    with_tables w (services_change_name s.app env s.db s.cached_get req player_name w.tables).1
serve s env (reset_texture kind req) w = (services_reset_texture kind s.app env s.db s.disk req w).1
serve s env (upload_skin req variant file) w =
    (services_upload_skin s.app env s.db s.disk s.cached_get req variant file w).1
serve s env (login visit username password) w =
    (front_login s.app env s.db visit username password (site w)).1.world
serve s env (logout visit) w = (front_logout s.app s.db visit (site w)).1.world
serve s env (delete_account visit username) w =
    (front_delete_user s.app s.db s.disk visit username (site w)).1.world
serve s env (register visit form) w =
    (front_register s.app env s.db s.profile_url visit form (site w)).1.world
serve s env (delete_invite visit code) w =
    (front_delete_invite s.app s.db s.admin_url visit code (site w)).1.world
serve s env (new_invite visit) w = (front_new_invite s.app env s.db visit (site w)).1.world
serve s env (update_rights visit form) w =
    (front_update_users s.app s.db visit form (site w)).1.world
serve s env (update_account visit form) w =
    (front_update s.app env s.db s.disk s.download visit form (site w)).1.world

-- The state after requests one after the other
unfoldable pub serve_all : Server → List (Env × Request) → World → World
unfolding serve
serve_all s [] w = w
serve_all s ((env, request) ∷ requests) w = serve_all s requests (serve s env request w)
