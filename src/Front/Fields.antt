-- ===== src/Front/Fields.antt =====
-- POST /update of front.go: the form, and the fields but the textures.
use drasl.Prelude.{◌||◌, ◌&&◌, Bool, not, Option, [], Bytes, ◌==◌, if◌then◌else◌}
use drasl.Errors.{text, with_error, Result, ok}
use drasl.Flow.{next, done, pure, ◌>>=◌, ◌>>◌}
use drasl.App.{App, Env}
use drasl.Model.Types.{User}
use drasl.Model.Validate.{
  validate_player_name, validate_player_name_or_uuid, validate_password, get_offline_uuid,
  is_valid_preferred_language, is_valid_skin_model,
}
use drasl.Auth.{hash_password}
use drasl.Textures.{Upload}
use drasl.Front.Types.{bad_request, Handler, try}
use drasl.Front.Login.{refuse_if}
use drasl.Front.Register.{accept}

-- The upload of a texture in the form: the file if one was sent, which may fail to open, the URL,
-- and the checkbox that deletes.
pub record TextureForm : Type 0 where
  pub file : Option (Result Upload)
  pub url : Bytes
  pub delete : Bool

pub record UpdateForm : Type 0 where
  pub username : Bytes
  pub player_name : Bytes
  pub fallback_player : Bytes
  pub password : Bytes
  pub preferred_language : Bytes
  pub skin_model : Bytes
  pub skin : TextureForm
  pub cape : TextureForm

-- `MakeHTTPClient().Get`, whose body is read like a file.
abbrev pub Download : Type 0
Download = Bytes → Result Upload

unfoldable pub update_player_name : App → Env → User → Bytes → Bytes → User → Handler User
unfolding accept
update_player_name app env user player_name return_url profile_user s =
    if player_name == [] || player_name == profile_user.player_name
    then (next profile_user, s)
    else (do
      accept (validate_player_name app player_name) (with_error "Invalid player name: %s")
          return_url
      refuse_if (not app.config.allow_changing_player_name && not user.is_admin)
          (text "Changing your player name is not allowed.") return_url
      offline_uuid ← try (get_offline_uuid app player_name)
      pure (record profile_user {
        player_name = player_name;
        offline_uuid = offline_uuid;
        name_last_changed_at = env.now;
      }))
        s

abbrev pub check_fallback_player : App → Bytes → Result (Unit {0})
check_fallback_player app fallback_player =
    if fallback_player == [] then ok tt else validate_player_name_or_uuid app fallback_player

unfoldable pub update_fallback_player : App → Bytes → Bytes → User → Handler User
unfolding accept
update_fallback_player app fallback_player return_url profile_user s =
    if fallback_player == profile_user.fallback_player
    then (next profile_user, s)
    else (do
      accept (check_fallback_player app fallback_player) (with_error "Invalid fallback player: %s")
          return_url
      pure (record profile_user { fallback_player = fallback_player }))
        s

unfoldable pub update_language : Bytes → Bytes → User → Handler User
update_language preferred_language return_url profile_user s =
    if preferred_language == []
    then (next profile_user, s)
    else (do
      refuse_if (not (is_valid_preferred_language preferred_language))
          (text "Invalid preferred language.") return_url
      pure (record profile_user { preferred_language = preferred_language }))
        s

unfoldable pub update_password : App → Env → Bytes → Bytes → User → Handler User
unfolding accept
update_password app env password return_url profile_user s =
    if password == []
    then (next profile_user, s)
    else (do
      accept (validate_password app password) (with_error "Invalid password: %s") return_url
      password_salt ← try (env.rand_read 16)
      password_hash ← try (hash_password app password password_salt)
      pure (record profile_user { password_salt = password_salt; password_hash = password_hash }))
        s

unfoldable pub update_skin_model : Bytes → User → Handler User
update_skin_model skin_model profile_user s =
    if skin_model == []
    then (next profile_user, s)
    else if is_valid_skin_model skin_model
    then (next (record profile_user { skin_model = skin_model }), s)
    else (done bad_request, s)
