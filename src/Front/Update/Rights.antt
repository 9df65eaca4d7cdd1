-- ===== src/Front/Update/Rights.antt =====
-- The rights of the accounts before and after `FrontUpdate` of front.go.
use drasl.Prelude.{◌≡◌, refl, arith}
use drasl.App.{App, Env}
use drasl.Model.Types.{User}
use drasl.Database.Tables.{Tables, Database}
use drasl.Textures.{skin, cape}
use drasl.Front.Update.Changes.{
  Change, renamed, falls_back, speaks, secured, modelled, textured, untextured, Changes, unchanged,
  change,
}
use drasl.Front.Fields.{UpdateForm}

-- The same account, with the same rights, session and joined server
pub record HasSameRights (u v : User) : Type 0 where
  pub uuid_lem : v.uuid ≡ u.uuid
  pub username_lem : v.username ≡ u.username
  pub is_admin_lem : v.is_admin ≡ u.is_admin
  pub is_locked_lem : v.is_locked ≡ u.is_locked
  pub browser_token_lem : v.browser_token ≡ u.browser_token
  pub server_id_lem : v.server_id ≡ u.server_id
  pub created_at_lem : v.created_at ≡ u.created_at

same_rights : (u : User) → HasSameRights u u
same_rights u = record {
  uuid_lem = refl;
  username_lem = refl;
  is_admin_lem = refl;
  is_locked_lem = refl;
  browser_token_lem = refl;
  server_id_lem = refl;
  created_at_lem = refl;
}

module _ {app : App} {env : Env} {user : User} {form : UpdateForm} where
  Change-HasSameRights : {old new : User} → Change app env user form old new → HasSameRights old new
  Change-HasSameRights (renamed offline_uuid valid may made e) = ground arith
  Change-HasSameRights (falls_back valid e) = ground arith
  Change-HasSameRights (speaks valid e) = ground arith
  Change-HasSameRights (secured salt hash valid salted hashed e) = ground arith
  Change-HasSameRights (modelled valid e) = ground arith
  Change-HasSameRights (textured skin reader buf hash may valid read e) = ground arith
  Change-HasSameRights (textured cape reader buf hash may valid read e) = ground arith
  Change-HasSameRights (untextured skin e) = ground arith
  Change-HasSameRights (untextured cape e) = ground arith

  pub Changes-HasSameRights :
      {old new : User} → Changes app env user form old new → HasSameRights old new
  Changes-HasSameRights unchanged = same_rights _
  Changes-HasSameRights (change mid new before last) =
      let a = Changes-HasSameRights before in let b = Change-HasSameRights last in ground arith
