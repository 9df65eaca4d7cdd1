-- ===== src/Textures/Saved.antt =====
-- What setting and deleting textures does with the tables: at most one statement.
use drasl.Prelude.{◌≡◌, ◌⊎◌, inl, inr, Option, arith}
use drasl.Errors.{Result-cases}
use drasl.App.{App}
use drasl.Model.Types.{User}
use drasl.Database.Tables.{Tables, Database, save_user, delete_user}
use drasl.Textures.{
  Kind, skin, cape, World, Disk, Upload, with_hash, read_upload, new_hash, set_texture_and_save,
  delete_user_and_textures,
}

-- Tables that a save of a user leaves, if there was one
abbrev pub IsStep : Database → Tables → Tables → Type 0
IsStep db t t' = (t' ≡ t) ⊎ ((u : User) × (t' ≡ (db.exec (save_user u) t).1))

pub set_texture_and_save-IsStep :
    (kind : Kind) (app : App) (db : Database) (disk : Disk) (user : User) (reader : Option Upload)
    (w : World)
    → IsStep db w.tables (set_texture_and_save kind app db disk user reader w).1.tables
unfolding set_texture_and_save
set_texture_and_save-IsStep skin app db disk user reader w =
    elim (Result-cases (read_upload skin app reader)) [
      | inr (e, p) ↦ inl (ground arith)
      | inl (upload, p) ↦ inr (with_hash skin user (new_hash upload), ground arith)
    ]
set_texture_and_save-IsStep cape app db disk user reader w =
    elim (Result-cases (read_upload cape app reader)) [
      | inr (e, p) ↦ inl (ground arith)
      | inl (upload, p) ↦ inr (with_hash cape user (new_hash upload), ground arith)
    ]

pub delete_user_and_textures-tables :
    (db : Database) (disk : Disk) (user : User) (w : World)
    → (delete_user_and_textures db disk user w).1.tables
      ≡ (db.exec (delete_user user.uuid) w.tables).1
unfolding delete_user_and_textures
delete_user_and_textures-tables db disk user w = ground arith
