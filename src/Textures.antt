-- ===== src/Textures.antt =====
-- Skins and capes of common.go: validation, the files under the state directory, and the rows that
-- name them. The program has each function twice, for skins and for capes; here `Kind` tells them
-- apart. A file is known by its hash, which with the kind makes up its path.
pub mod Used
pub mod Consistent
pub mod Delete
pub mod Served
pub mod Saved
pub mod Bounds
use drasl.Prelude.{
  ℕ, ◌+◌, ◌*◌, ◌≡◌, Bool, true, false, ◌&&◌, not, Option, none, some, List, [], ◌∷◌, Bytes, codes,
  ◌==◌, ltb, nat_eq, take, if◌then◌else◌,
}
use drasl.Errors.{Error, text, with_number, external, Result, ok, err, ◌>>=◌, ◌>>◌}
use drasl.App.{App, hex_encode}
use drasl.Model.Types.{User}
use drasl.Database.Tables.{Tables, Database, save_user, delete_user}

pub data Kind : Type 0 where
  skin cape : Kind

-- The files of one directory, by hash.
abbrev pub Files : Type 0
Files = List (Bytes × Bytes)

pub record World : Type 0 where
  pub tables : Tables
  pub skins : Files
  pub capes : Files

abbrev pub files_of : Kind → World → Files
files_of skin w = w.skins
files_of cape w = w.capes

abbrev pub with_files : Kind → World → Files → World
with_files skin w files = record w { skins = files }
with_files cape w files = record w { capes = files }

abbrev pub hash_of : Kind → User → Option Bytes
hash_of skin u = u.skin_hash
hash_of cape u = u.cape_hash

abbrev pub with_hash : Kind → User → Option Bytes → User
with_hash skin u hash = record u { skin_hash = hash }
with_hash cape u hash = record u { cape_hash = hash }

-- `os.Stat` finds a file.
unfoldable pub exists : Bytes → Files → Bool
exists hash [] = false
exists hash ((h, _) ∷ files) = if h == hash then true else exists hash files

unfoldable pub remove : Bytes → Files → Files
remove hash [] = []
remove hash ((h, buf) ∷ files) =
    let rest = remove hash files in if h == hash then rest else (h, buf) ∷ rest

-- Which calls of the file system fail. A write that fails leaves part of the content.
pub record Disk : Type 0 where
  pub stat : Bytes → Option Error
  pub mkdir_all : Option Error
  pub create : Bytes → Option Error
  pub write : Bytes → Bytes → Option (Error × Bytes)
  pub remove : Bytes → Option Error

-- An upload: what `png.DecodeConfig` says of its width and height, and its bytes or the error of
-- reading them.
pub record Upload : Type 0 where
  pub size : Result (ℕ × ℕ)
  pub body : Result Bytes

-- The test that both validations end with
check_limit : App → ℕ → Result (Unit {0})
check_limit app width =
    if ltb 0 app.config.skin_size_limit && ltb app.config.skin_size_limit width
    then err
        (with_number "texture must not be greater than %d pixels wide" app.config.skin_size_limit)
    else ok tt

unfoldable pub validate_skin : App → Upload → Result (Unit {0})
unfolding check_limit
validate_skin app reader = do
  (width, height) ← reader.size
  if not (nat_eq width height) then err (text "texture must be square") else check_limit app width

unfoldable pub validate_cape : App → Upload → Result (Unit {0})
unfolding check_limit
validate_cape app reader = do
  (width, height) ← reader.size
  if not (nat_eq width (2 * height))
      then err (text "cape's width must be twice its height")
      else check_limit app width

unfoldable pub validate : Kind → App → Upload → Result (Unit {0})
unfolding validate_skin validate_cape
validate skin app reader = validate_skin app reader
validate cape app reader = validate_cape app reader

-- At most ten million bytes are read; the hash is the texture's name.
unfoldable pub read_texture : App → Upload → Result (Bytes × Bytes)
read_texture app reader = do
  body ← reader.body
  let buf = take 10000000 body
  ok (buf, hex_encode (app.blake3_sum256 buf))

-- `WriteSkin` and `WriteCape`
unfoldable pub write_texture : Disk → Bytes → Bytes → Files → Option Error × Files
write_texture disk hash buf files = elim (disk.stat hash) [
  | some e ↦ (some e, files)
  | none ↦ if exists hash files then (none, files) else elim disk.mkdir_all [
    | some e ↦ (some e, files)
    | none ↦ elim (disk.create hash) [
      | some e ↦ (some e, files)
      | none ↦ elim (disk.write hash buf) [
        | some (e, part) ↦ (some e, (hash, part) ∷ files)
        | none ↦ (none, (hash, buf) ∷ files)
      ]
    ]
  ]
]

abbrev pub in_use : Kind → Database → Bytes → Tables → Result Bool
in_use skin db hash t = db.skin_in_use hash t
in_use cape db hash t = db.cape_in_use hash t

-- `os.Remove` fails too where there is no file.
remove_file : Disk → Bytes → Files → Option Error × Files
remove_file disk hash files = elim (disk.remove hash) [
  | some e ↦ (some e, files)
  | none ↦
      if exists hash files
      then (none, remove hash files)
      else (some (external "remove: no such file or directory"), files)
]

-- `DeleteSkinIfUnused` and `DeleteCapeIfUnused`
unfoldable pub delete_if_unused :
    Kind → Database → Disk → Option Bytes → Tables → Files → Option Error × Files
unfolding remove_file
delete_if_unused kind db disk none t files = (none, files)
delete_if_unused kind db disk (some hash) t files = elim (in_use kind db hash t) [
  | err e ↦ (some e, files)
  | ok used ↦ if used then (none, files) else remove_file disk hash files
]

-- The buffer and hash of an upload, if there is one.
unfoldable pub read_upload : Kind → App → Option Upload → Result (Option (Bytes × Bytes))
unfolding validate read_texture
read_upload kind app none = ok none
read_upload kind app (some reader) = do
  validate kind app reader
  (buf, hash) ← read_texture app reader
  ok (some (buf, hash))

abbrev pub new_hash : Option (Bytes × Bytes) → Option Bytes
new_hash none = none
new_hash (some (_, hash)) = some hash

write_new : Disk → Option (Bytes × Bytes) → Files → Option Error × Files
write_new disk none files = (none, files)
write_new disk (some (buf, hash)) files = write_texture disk hash buf files

-- `SetSkinAndSave` and `SetCapeAndSave`: the user as it was saved, or the error, and what was
-- changed before the error.
unfoldable pub set_texture_and_save :
    Kind → App → Database → Disk → User → Option Upload → World → Result User × World
unfolding write_new
set_texture_and_save kind app db disk user reader w = elim (read_upload kind app reader) [
  | err e ↦ (err e, w)
  | ok upload ↦
      let user' = with_hash kind user (new_hash upload) in
      let (failed_save, t) = db.exec (save_user user') w.tables in
      let w₁ = record w { tables = t } in
      elim failed_save [
        | some e ↦ (err e, w₁)
        | none ↦
            let (failed_write, files) = write_new disk upload (files_of kind w₁) in
            let w₂ = with_files kind w₁ files in
            elim failed_write [
              | some e ↦ (err e, w₂)
              | none ↦
                  let (failed_delete, files') =
                    delete_if_unused kind db disk (hash_of kind user) t (files_of kind w₂) in
                  let w₃ = with_files kind w₂ files' in
                  elim failed_delete [ some e ↦ (err e, w₃) | none ↦ (ok user', w₃) ]
            ]
      ]
]

-- `DeleteUser` of common.go. Its client rows stay.
unfoldable pub delete_user_and_textures : Database → Disk → User → World → Option Error × World
delete_user_and_textures db disk user w =
    let (failed_delete, t) = db.exec (delete_user user.uuid) w.tables in
    let w₁ = record w { tables = t } in
    elim failed_delete [
      | some e ↦ (some e, w₁)
      | none ↦
          let (failed_skin, skins) = delete_if_unused skin db disk user.skin_hash t w₁.skins in
          let w₂ = record w₁ { skins = skins } in
          elim failed_skin [
            | some e ↦ (some e, w₂)
            | none ↦
                let (failed_cape, capes) =
                  delete_if_unused cape db disk user.cape_hash t w₂.capes in
                (failed_cape, record w₂ { capes = capes })
          ]
    ]
