-- ===== src/Textures/Consistent.antt =====
-- The files of a directory are exactly the textures that users have, and the operations keep that.
use drasl.Prelude.{
  ◌≡◌, sym, ap, Bool, ◌&&◌, ◌||◌, not, Option, none, some, List, [], ◌∷◌, inl, inr, arith, Bytes,
  ◌==◌, eq_iff,
}
use drasl.Errors.{ok, Result-cases}
use drasl.App.{App}
use drasl.Model.Types.{User}
use drasl.Database.Tables.{Tables, Database, column_is, put_user, save_user, apply}
use drasl.Database.Laws.{In, UniqueBy, HasUniqueKeys, IsLawful}
use drasl.Textures.{
  Kind, skin, cape, Files, World, Disk, Upload, files_of, hash_of, with_hash, with_files, exists,
  remove, read_upload, new_hash, write_new, write_texture, remove_file, delete_if_unused, in_use,
  set_texture_and_save,
}
use drasl.Textures.Used.{used, others, any-In, any-put_user}

pub exists-remove :
    (hash h : Bytes) (files : Files)
    → exists h (remove hash files) ≡ (not (hash == h) && exists h files)
unfolding exists remove
exists-remove hash h [] = ground arith
exists-remove hash h ((k, buf) ∷ files) =
    ground (arith, exists-remove hash h files, eq_iff k hash, eq_iff k h, eq_iff hash h)

-- A write that succeeds adds the file if it was not there.
pub exists-write_texture :
    (disk : Disk) (hash buf h : Bytes) (files files' : Files)
    → write_texture disk hash buf files ≡ (none, files')
    → exists h files' ≡ (hash == h || exists h files)
unfolding write_texture exists
exists-write_texture disk hash buf h files files' w = ground (arith, eq_iff hash h)

exists-write_new :
    (disk : Disk) (upload : Option (Bytes × Bytes)) (h : Bytes) (files files' : Files)
    → write_new disk upload files ≡ (none, files')
    → exists h files' ≡ (column_is (new_hash upload) h || exists h files)
unfolding write_new
exists-write_new disk none h files files' w = ground arith
exists-write_new disk (some (buf, hash)) h files files' w =
    exists-write_texture disk hash buf h files files' w

pub in_use-used :
    (db : Database) (kind : Kind) (hash : Bytes) (t : Tables) (b : Bool)
    → IsLawful db
    → in_use kind db hash t ≡ ok b
    → used kind t.users hash ≡ b
in_use-used db skin hash t b lawful h = lawful.skin_in_use-ok hash t b h
in_use-used db cape hash t b lawful h = lawful.cape_in_use-ok hash t b h

-- A deletion that succeeds leaves the file if a user has the texture, and no other file is touched.
pub exists-delete_if_unused :
    (db : Database) (disk : Disk) (kind : Kind) (old : Option Bytes) (h : Bytes) (t : Tables)
    (files files' : Files)
    → IsLawful db
    → delete_if_unused kind db disk old t files ≡ (none, files')
    → exists h files' ≡ (exists h files && (not (column_is old h) || used kind t.users h))
unfolding delete_if_unused remove_file
exists-delete_if_unused db disk kind none h t files files' lawful d = ground arith
exists-delete_if_unused db disk kind (some hash) h t files files' lawful d =
    elim (Result-cases (in_use kind db hash t)) [
      | inr (e, p) ↦ ground arith
      | inl (b, p) ↦
          ground (
            arith,
            in_use-used db kind hash t b lawful p,
            exists-remove hash h files,
            eq_iff hash h,
          )
    ]

-- The files are exactly the textures in use.
pub record IsConsistent (w : World) : Type 0 where
  pub exists-used :
      (kind : Kind) (h : Bytes) → exists h (files_of kind w) ≡ used kind w.tables.users h

set_texture-inverse :
    (kind : Kind) (app : App) (db : Database) (disk : Disk) (user user' : User)
    (reader : Option Upload) (w w' : World)
    → IsLawful db
    → set_texture_and_save kind app db disk user reader w ≡ (ok user', w')
    → (upload : Option (Bytes × Bytes)) × (files files' : Files) × (user'
        ≡ with_hash kind user (new_hash upload))
      × (w'.tables ≡ apply (save_user user') w.tables)
      × ((db.exec (save_user user') w.tables).0 ≡ none)
      × (write_new disk upload (files_of kind w) ≡ (none, files))
      × (delete_if_unused kind db disk (hash_of kind user) w'.tables files ≡ (none, files'))
      × (w' ≡ with_files kind (record w { tables = w'.tables }) files')
unfolding set_texture_and_save
set_texture-inverse skin app db disk user user' reader w w' lawful h =
    elim (Result-cases (read_upload skin app reader)) [
      | inr (e, p) ↦ ground arith
      | inl (upload, p) ↦
          let saved = with_hash skin user (new_hash upload) in
          let t = (db.exec (save_user saved) w.tables).1 in
          let written = write_new disk upload w.skins in
          (
            upload,
            written.1,
            (delete_if_unused skin db disk user.skin_hash t written.1).1,
            ground arith,
            ground (arith, lawful.exec-ok (save_user saved) w.tables),
            ground arith,
            ground arith,
            ground arith,
            ground arith,
          )
    ]
set_texture-inverse cape app db disk user user' reader w w' lawful h =
    elim (Result-cases (read_upload cape app reader)) [
      | inr (e, p) ↦ ground arith
      | inl (upload, p) ↦
          let saved = with_hash cape user (new_hash upload) in
          let t = (db.exec (save_user saved) w.tables).1 in
          let written = write_new disk upload w.capes in
          (
            upload,
            written.1,
            (delete_if_unused cape db disk user.cape_hash t written.1).1,
            ground arith,
            ground (arith, lawful.exec-ok (save_user saved) w.tables),
            ground arith,
            ground arith,
            ground arith,
            ground arith,
          )
    ]

pub mixed :
    (n o r before after : Bool)
    → before ≡ (o || r)
    → after ≡ (n || r)
    → ((n || before) && (not o || after)) ≡ after
mixed n o r before after b a = ground arith

-- One directory after a row was saved over an old one.
saved_directory :
    (db : Database) (disk : Disk) (kind : Kind) (upload : Option (Bytes × Bytes)) (old user : User)
    (users : List User) (t : Tables) (files files₁ files₂ : Files) (h : Bytes)
    → IsLawful db
    → UniqueBy (λ (u : User). u.uuid) users
    → In old users
    → user.uuid ≡ old.uuid
    → hash_of kind user ≡ new_hash upload
    → t.users ≡ put_user user users
    → exists h files ≡ used kind users h
    → write_new disk upload files ≡ (none, files₁)
    → delete_if_unused kind db disk (hash_of kind old) t files₁ ≡ (none, files₂)
    → exists h files₂ ≡ used kind t.users h
saved_directory db disk kind upload old user users t files files₁ files₂ h lawful unique member same
      hash after before written deleted =
    let p = λ (u : User). column_is (hash_of kind u) h in
    let a = any-In p old users unique member in
    let b = any-put_user p user users unique in
    let c = exists-write_new disk upload h files files₁ written in
    let d =
      exists-delete_if_unused db disk kind (hash_of kind old) h t files₁ files₂ lawful deleted in
    let u : used kind t.users h ≡ (column_is (new_hash upload) h || others old.uuid p users) =
      rw (after, b, hash, same) in
    rw d (rw c (rw before (mixed _ _ _ _ _ a u)))

-- The other directory: the textures in use there are what they were.
saved_elsewhere :
    (kind : Kind) (old user : User) (users : List User) (h : Bytes)
    → UniqueBy (λ (u : User). u.uuid) users
    → In old users
    → user.uuid ≡ old.uuid
    → hash_of kind user ≡ hash_of kind old
    → used kind (put_user user users) h ≡ used kind users h
saved_elsewhere kind old user users h unique member same hash =
    let p = λ (u : User). column_is (hash_of kind u) h in
    rw (any-put_user p user users unique, any-In p old users unique member, hash, same)

-- When a stored user's skin or cape is set or reset and the program reports no error, the files of
-- both directories are again exactly the textures in use, if they were so before.
pub set_texture_and_save-IsConsistent :
    (kind : Kind) (app : App) (db : Database) (disk : Disk) (user user' : User)
    (reader : Option Upload) (w w' : World)
    → IsLawful db
    → HasUniqueKeys w.tables
    → In user w.tables.users
    → IsConsistent w
    → set_texture_and_save kind app db disk user reader w ≡ (ok user', w')
    → IsConsistent w'
set_texture_and_save-IsConsistent skin app db disk user user' reader w w' lawful unique member c h =
    let (upload, files, files', made, after, saved, written, deleted, finished) =
      set_texture-inverse skin app db disk user user' reader w w' lawful h in
    let users : w'.tables.users ≡ put_user user' w.tables.users =
      ap (λ (t : Tables). t.users) after in
    let own : w'.skins ≡ files' = ap (λ (v : World). v.skins) finished in
    let rest : w'.capes ≡ w.capes = ap (λ (v : World). v.capes) finished in
    record {
      exists-used = elim [
        | skin ↦ λ x. rw own (
            saved_directory db disk skin upload user user' w.tables.users w'.tables w.skins files
              files' x lawful unique.user_uuids member (ap (λ (u : User). u.uuid) made)
              (ap (λ (u : User). hash_of skin u) made) users (c.exists-used skin x) written deleted)
        | cape ↦ λ x.
            rw (rest, users, c.exists-used cape x)
              (sym (
                saved_elsewhere cape user user' w.tables.users x unique.user_uuids member
                  (ap (λ (u : User). u.uuid) made) (ap (λ (u : User). hash_of cape u) made)))
      ];
    }
set_texture_and_save-IsConsistent cape app db disk user user' reader w w' lawful unique member c h =
    let (upload, files, files', made, after, saved, written, deleted, finished) =
      set_texture-inverse cape app db disk user user' reader w w' lawful h in
    let users : w'.tables.users ≡ put_user user' w.tables.users =
      ap (λ (t : Tables). t.users) after in
    let own : w'.capes ≡ files' = ap (λ (v : World). v.capes) finished in
    let rest : w'.skins ≡ w.skins = ap (λ (v : World). v.skins) finished in
    record {
      exists-used = elim [
        | cape ↦ λ x. rw own (
            saved_directory db disk cape upload user user' w.tables.users w'.tables w.capes files
              files' x lawful unique.user_uuids member (ap (λ (u : User). u.uuid) made)
              (ap (λ (u : User). hash_of cape u) made) users (c.exists-used cape x) written deleted)
        | skin ↦ λ x.
            rw (rest, users, c.exists-used skin x)
              (sym (
                saved_elsewhere skin user user' w.tables.users x unique.user_uuids member
                  (ap (λ (u : User). u.uuid) made) (ap (λ (u : User). hash_of skin u) made)))
      ];
    }
