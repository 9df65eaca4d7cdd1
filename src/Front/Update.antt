-- ===== src/Front/Update.antt =====
-- POST /update of front.go: a user, or an administrator for another user, changes an account.
pub mod Changes
pub mod Sound
pub mod Rights
pub mod Served
use drasl.Prelude.{
  ◌||◌, ◌&&◌, Bool, true, false, not, Option, none, some, is_some, [], Bytes, ◌==◌, if◌then◌else◌,
}
use drasl.Util.{ptr_equals}
use drasl.Errors.{Error, text, with_error, Result, ok, err, is_error_unique_failed}
use drasl.Flow.{next, done, pure, stop, ◌>>=◌, ◌>>◌}
use drasl.App.{App, Env}
use drasl.Model.Types.{User}
use drasl.Model.Validate.{
  validate_player_name, validate_player_name_or_uuid, validate_password, get_offline_uuid,
  is_valid_preferred_language, is_valid_skin_model,
}
use drasl.Database.Tables.{Tables, Database, save_user}
use drasl.Auth.{hash_password}
use drasl.Textures.{
  Kind, skin, cape, Files, Disk, Upload, files_of, with_files, hash_of, with_hash, validate,
  read_texture, write_texture, delete_if_unused,
}
use drasl.Front.Types.{
  Visit, success_message, Page, failed, redirect, bad_request, Site, Handler, set_cookie, refuse,
  try, call,
}
use drasl.Front.Access.{get_return_url, with_browser_authentication, logged_in}
use drasl.Front.Login.{refuse_if, target_user}
use drasl.Front.Register.{accept}
use drasl.Front.Fields.{
  TextureForm, UpdateForm, Download, update_player_name, update_fallback_player, update_language,
  update_password, update_skin_model,
}

-- What the skin's and the cape's parts say in their own words.
abbrev pub allowed : Kind → App → Bool
allowed skin app = app.config.allow_skins
allowed cape app = app.config.allow_capes

abbrev not_allowed : Kind → Error
not_allowed skin = text "Setting a skin is not allowed."
not_allowed cape = text "Setting a cape is not allowed."

abbrev download_failed : Kind → Error
download_failed skin = text "Couldn't download skin from that URL."
download_failed cape = text "Couldn't download cape from that URL."

abbrev invalid_texture : Kind → Error → Error
invalid_texture skin = with_error "Error using that skin: %s"
invalid_texture cape = with_error "Error using that cape: %s"

abbrev write_failed : Kind → Error
write_failed skin = text "Error saving the skin."
write_failed cape = text "Error saving the cape."

-- The reader: the uploaded file, or else what the URL gives.
unfoldable pub open_texture : Kind → Download → TextureForm → Bytes → Handler Upload
unfolding accept
open_texture kind download form return_url s = elim form.file [
  | some opened ↦ try opened s
  | none ↦ accept (download form.url) (λ _. download_failed kind) return_url s
]

-- The skin's or the cape's part: the user with the new hash, and the buffer and hash if a texture
-- was sent.
unfoldable pub update_texture :
    Kind
    → App
    → Download
    → User
    → TextureForm
    → Bytes
    → User
    → Handler (User × Option (Bytes × Bytes))
unfolding open_texture accept
update_texture kind app download user form return_url profile_user s =
    if is_some form.file || not (form.url == [])
    then (do
      refuse_if (not (allowed kind app) && not user.is_admin) (not_allowed kind) return_url
      reader ← open_texture kind download form return_url
      accept (validate kind app reader) (invalid_texture kind) return_url
      (buf, hash) ← try (read_texture app reader)
      pure (with_hash kind profile_user (some hash), some (buf, hash)))
        s
    else if form.delete
    then (next (with_hash kind profile_user none, none), s)
    else (next (profile_user, none), s)

-- The user to save and the textures that were sent.
abbrev pub Edit : Type 0
Edit = User × Option (Bytes × Bytes) × Option (Bytes × Bytes)

-- Everything before the database is changed.
unfoldable pub edit_user : App → Env → Download → User → UpdateForm → Bytes → User → Handler Edit
unfolding update_player_name update_fallback_player update_language update_password
    update_skin_model update_texture
edit_user app env download user form return_url profile_user = do
  named ← update_player_name app env user form.player_name return_url profile_user
  fallen ← update_fallback_player app form.fallback_player return_url named
  spoken ← update_language form.preferred_language return_url fallen
  secured ← update_password app env form.password return_url spoken
  modelled ← update_skin_model form.skin_model secured
  (skinned, skin_buf) ← update_texture skin app download user form.skin return_url modelled
  (caped, cape_buf) ← update_texture cape app download user form.cape return_url skinned
  pure (caped, skin_buf, cape_buf)

-- `app.DB.Save(&profileUser)`, with the answer to its error.
unfoldable pub save_edited : Database → Bytes → User → Handler (Unit {0})
save_edited db return_url edited = do
  failed_save ← call (db.exec (save_user edited))
  elim failed_save [
    | none ↦ pure tt
    | some e ↦
        if is_error_unique_failed e
        then refuse (text "That player name is taken.") return_url
        else stop (failed e)
  ]

abbrev buffer_of : Option (Bytes × Bytes) → Bytes
buffer_of none = []
buffer_of (some (buf, _)) = buf

-- A hash that changes to another than null is that of a texture that was sent.
write_changed : Disk → Option Bytes → Option (Bytes × Bytes) → Files → Option Error × Files
write_changed disk none sent files = (none, files)
write_changed disk (some hash) sent files = write_texture disk hash (buffer_of sent) files

-- The file of the new texture is written, and the old one deleted if no user has it; an error of
-- the deletion is dropped.
unfoldable pub replace_texture :
    Kind
    → Database
    → Disk
    → Option Bytes
    → Option Bytes
    → Option (Bytes × Bytes)
    → Tables
    → Files
    → Bool × Files
unfolding write_changed
replace_texture kind db disk old_hash hash sent t files =
    if ptr_equals old_hash hash
    then (true, files)
    else let (failed_write, files₁) = write_changed disk hash sent files in
      elim failed_write [
        | some _ ↦ (false, files₁)
        | none ↦ (true, (delete_if_unused kind db disk old_hash t files₁).1)
      ]

-- The step of the handler: an error of writing ends it.
unfoldable pub store_texture :
    Kind → Database → Disk → Bytes → User → User → Option (Bytes × Bytes) → Handler (Unit {0})
unfolding replace_texture
store_texture kind db disk return_url profile_user edited sent s =
    let (written, files) =
      replace_texture kind db disk (hash_of kind profile_user) (hash_of kind edited) sent s.tables
        (files_of kind s.world) in
    let s' = record s { world = with_files kind s.world files } in
    if written then (next tt, s') else refuse (write_failed kind) return_url s'

unfoldable pub save_edit : Database → Disk → Bytes → User → Edit → Handler Page
unfolding save_edited store_texture
save_edit db disk return_url profile_user (edited, skin_buf, cape_buf) = do
  save_edited db return_url edited
  store_texture skin db disk return_url profile_user edited skin_buf
  store_texture cape db disk return_url profile_user edited cape_buf
  set_cookie (success_message (text "Changes saved."))
  pure (redirect return_url)

-- FrontUpdate for an authenticated user
unfoldable pub update_profile :
    App → Env → Database → Disk → Download → Visit → UpdateForm → User → Handler Page
unfolding edit_user save_edit get_return_url
update_profile app env db disk download visit form user = do
  let return_url = get_return_url app visit
  profile_user ← target_user app db user form.username return_url
  edit ← edit_user app env download user form return_url profile_user
  save_edit db disk return_url profile_user edit

unfoldable pub front_update :
    App → Env → Database → Disk → Download → Visit → UpdateForm → Handler Page
unfolding with_browser_authentication update_profile
front_update app env db disk download visit form =
    with_browser_authentication app db true visit
      (logged_in (update_profile app env db disk download visit form))
