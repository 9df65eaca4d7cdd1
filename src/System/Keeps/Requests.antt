-- ===== src/System/Keeps/Requests.antt =====
-- The requests of System as steps of System/Keeps.
use drasl.Prelude.{sym, inl, inr, subst, Option, none, some, Bytes}
use drasl.Errors.{Result, text, Result-cases}
use drasl.App.{App, Env, CachedGet}
use drasl.Model.Types.{User}
use drasl.Model.Validate.{is_valid_skin_model}
use drasl.Database.Tables.{Tables, Database, save_user}
use drasl.Textures.{Kind, skin, World, Disk, Upload, set_texture_and_save}
use drasl.Textures.Saved.{IsStep, set_texture_and_save-IsStep}
use drasl.Services.{
  Call, bad_upload, save_skin, services_change_name, services_reset_texture, services_upload_skin,
}
use drasl.System.Keeps.{IsKept, Keeps, bind-Keeps, guard-Keeps}
use drasl.Auth.Types.{AuthenticateRequest, RefreshRequest}
use drasl.Auth.{auth_authenticate, auth_refresh}
use drasl.System.Keeps.Apis.{
  auth_signout-Keeps, auth_invalidate-Keeps, session_join-Keeps, change_name-Keeps,
  with_bearer_authentication-Keeps,
}
use drasl.System.Keeps.Front.{front_login-Keeps, front_logout-Keeps, front_delete_user-Keeps}
use drasl.System.Keeps.Accounts.{front_register-Keeps, front_update-Keeps}
use drasl.System.Keeps.Rights.{
  front_delete_invite-Keeps, front_new_invite-Keeps, front_update_users-Keeps,
}
use drasl.System.{
  Request, authenticate, refresh, signout, invalidate, join, change_player_name, reset_texture,
  upload_skin, login, logout, delete_account, register, delete_invite, new_invite, update_rights,
  update_account, Server, site, serve,
}

module _ (db : Database) (P : Tables → Type 0) (kept : IsKept db P) where
  IsStep_keeps : (t t' : Tables) → IsStep db t t' → P t → P t'
  IsStep_keeps t t' (inl same) p = subst P (sym same) p
  IsStep_keeps t t' (inr (u, e)) p = subst P (sym e) (kept.exec_keeps (save_user u) tt t p)

  services_reset_texture-Keeps :
      (kind : Kind) (app : App) (env : Env) (disk : Disk) (req : Call)
      → Keeps (λ (w : World). P w.tables) (services_reset_texture kind app env db disk req)
  unfolding services_reset_texture
  services_reset_texture-Keeps kind app env disk req =
      with_bearer_authentication-Keeps (λ (w : World). P w.tables) app env db (λ w. w.tables) req _
        λ user. record {
          keep = λ w p.
              let r = set_texture_and_save kind app db disk user none w in
              let after =
                IsStep_keeps w.tables r.1.tables
                  (set_texture_and_save-IsStep kind app db disk user none w) p in
              elim (Result-cases r.0) [ inl (u, e) ↦ rw e after | inr (f, e) ↦ rw e after ];
        }

  save_skin-Keeps :
      (req : Call) (app : App) (disk : Disk) (cached_get : CachedGet) (user : User)
      (file : Option Upload)
      → Keeps (λ (w : World). P w.tables) (save_skin req app db disk cached_get user file)
  unfolding save_skin
  save_skin-Keeps req app disk cached_get user none = record { keep = λ w p. p }
  save_skin-Keeps req app disk cached_get user (some src) = record {
    keep = λ w p.
        let r = set_texture_and_save skin app db disk user (some src) w in
        let after =
          IsStep_keeps w.tables r.1.tables
            (set_texture_and_save-IsStep skin app db disk user (some src) w) p in
        elim (Result-cases r.0) [
          | inl (u, e) ↦ rw (save_skin, e) after
          | inr (f, e) ↦ rw (save_skin, e) after
        ];
  }

  services_upload_skin-Keeps :
      (app : App) (env : Env) (disk : Disk) (cached_get : CachedGet) (req : Call) (variant : Bytes)
      (file : Option Upload)
      → Keeps
          (λ (w : World). P w.tables)
          (services_upload_skin app env db disk cached_get req variant file)
  unfolding services_upload_skin
  services_upload_skin-Keeps app env disk cached_get req variant file =
      let Q = λ (w : World). P w.tables in
      with_bearer_authentication-Keeps Q app env db (λ w. w.tables) req _
        λ user.
          bind-Keeps Q _ _
            (guard-Keeps Q app.config.allow_skins
              (bad_upload req (text "Changing your skin is not allowed.")))
            λ _.
              bind-Keeps Q _ _
                (guard-Keeps Q (is_valid_skin_model variant)
                  (bad_upload req (text "Invalid request body for skin upload")))
                λ _.
                  save_skin-Keeps req app disk cached_get (record user { skin_model = variant })
                    file

-- A request keeps what statements keep that save no client, and what /authenticate and /refresh keep.
pub serve_keeps :
    (s : Server) (env : Env) (P : Tables → Type 0)
    → IsKept s.db P
    → ((bound : Result AuthenticateRequest) → Keeps P (auth_authenticate s.app env s.db bound))
    → ((bound : Result RefreshRequest) → Keeps P (auth_refresh s.app env s.db bound))
    → (request : Request) (w : World) → P w.tables
    → P (serve s env request w).tables
unfolding serve services_change_name
serve_keeps s env P kept authenticates refreshes (authenticate bound) w p =
    (authenticates bound).keep w.tables p
serve_keeps s env P kept authenticates refreshes (refresh bound) w p =
    (refreshes bound).keep w.tables p
serve_keeps s env P kept authenticates refreshes (signout bound) w p =
    (auth_signout-Keeps s.db P kept s.app env bound).keep w.tables p
serve_keeps s env P kept authenticates refreshes (invalidate bound) w p =
    (auth_invalidate-Keeps s.db P kept s.app env bound).keep w.tables p
serve_keeps s env P kept authenticates refreshes (join bound) w p =
    (session_join-Keeps s.db P kept s.app env bound).keep w.tables p
serve_keeps s env P kept authenticates refreshes (change_player_name req player_name) w p =
    (with_bearer_authentication-Keeps P s.app env s.db (λ t. t) req _
        (change_name-Keeps s.db P kept s.app env s.cached_get req player_name)).keep
      w.tables p
serve_keeps s env P kept authenticates refreshes (reset_texture kind req) w p =
    (services_reset_texture-Keeps s.db P kept kind s.app env s.disk req).keep w p
serve_keeps s env P kept authenticates refreshes (upload_skin req variant file) w p =
    (services_upload_skin-Keeps s.db P kept s.app env s.disk s.cached_get req variant file).keep w p
serve_keeps s env P kept authenticates refreshes (login visit username password) w p =
    (front_login-Keeps s.db P kept s.app env visit username password).keep (site w) p
serve_keeps s env P kept authenticates refreshes (logout visit) w p =
    (front_logout-Keeps s.db P kept s.app visit).keep (site w) p
serve_keeps s env P kept authenticates refreshes (delete_account visit username) w p =
    (front_delete_user-Keeps s.db P kept s.app s.disk visit username).keep (site w) p
serve_keeps s env P kept authenticates refreshes (register visit form) w p =
    (front_register-Keeps s.db P kept s.app env s.profile_url visit form).keep (site w) p
serve_keeps s env P kept authenticates refreshes (delete_invite visit code) w p =
    (front_delete_invite-Keeps s.db P kept s.app s.admin_url visit code).keep (site w) p
serve_keeps s env P kept authenticates refreshes (new_invite visit) w p =
    (front_new_invite-Keeps s.db P kept s.app env visit).keep (site w) p
serve_keeps s env P kept authenticates refreshes (update_rights visit form) w p =
    (front_update_users-Keeps s.db P kept s.app visit form).keep (site w) p
serve_keeps s env P kept authenticates refreshes (update_account visit form) w p =
    (front_update-Keeps s.db P kept s.app env s.disk s.download visit form).keep (site w) p
