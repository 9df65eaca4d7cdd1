-- ===== src/Textures/Delete.antt =====
-- Deleting a user deletes the textures that only this user had.
use drasl.Prelude.{◌≡◌, ap, false, ◌||◌, none, List, arith, Bytes, ◌==◌, keep, not}
use drasl.Model.Types.{User}
use drasl.Database.Tables.{Tables, Database, column_is, delete_user, apply}
use drasl.Database.Laws.{In, UniqueBy, HasUniqueKeys, IsLawful}
use drasl.Textures.{
  Kind, skin, cape, Files, World, Disk, hash_of, exists, delete_if_unused, delete_user_and_textures,
}
use drasl.Textures.Used.{used, others, any-In, any-delete}
use drasl.Textures.Consistent.{IsConsistent, exists-delete_if_unused, mixed}

deleted_directory :
    (db : Database) (disk : Disk) (kind : Kind) (user : User) (users : List User) (t : Tables)
    (files files' : Files) (h : Bytes)
    → IsLawful db
    → UniqueBy (λ (u : User). u.uuid) users
    → In user users
    → t.users ≡ keep (λ u. not (u.uuid == user.uuid)) users
    → exists h files ≡ used kind users h
    → delete_if_unused kind db disk (hash_of kind user) t files ≡ (none, files')
    → exists h files' ≡ used kind t.users h
deleted_directory db disk kind user users t files files' h lawful unique member after before
      deleted =
    let p = λ (u : User). column_is (hash_of kind u) h in
    let u : used kind t.users h ≡ (false || others user.uuid p users) =
      rw (after, any-delete p user.uuid users) in
    rw (exists-delete_if_unused db disk kind (hash_of kind user) h t files files' lawful deleted)
      (rw before (mixed false _ _ _ _ (any-In p user users unique member) u))

delete_user-inverse :
    (db : Database) (disk : Disk) (user : User) (w w' : World)
    → IsLawful db
    → delete_user_and_textures db disk user w ≡ (none, w')
    → (w'.tables ≡ apply (delete_user user.uuid) w.tables)
      × (delete_if_unused skin db disk user.skin_hash w'.tables w.skins ≡ (none, w'.skins))
      × (delete_if_unused cape db disk user.cape_hash w'.tables w.capes ≡ (none, w'.capes))
unfolding delete_user_and_textures
delete_user-inverse db disk user w w' lawful h =
    (ground (arith, lawful.exec-ok (delete_user user.uuid) w.tables), ground arith, ground arith)

-- When a stored user is deleted and the program reports no error, the user's row is gone and the
-- files of both directories are again exactly the textures in use, if they were so before.
pub delete_user_and_textures-IsConsistent :
    (db : Database) (disk : Disk) (user : User) (w w' : World)
    → IsLawful db
    → HasUniqueKeys w.tables
    → In user w.tables.users
    → IsConsistent w
    → delete_user_and_textures db disk user w ≡ (none, w')
    → (w'.tables ≡ apply (delete_user user.uuid) w.tables) × IsConsistent w'
delete_user_and_textures-IsConsistent db disk user w w' lawful unique member c h =
    let (after, skins, capes) = delete_user-inverse db disk user w w' lawful h in
    let users = ap (λ (t : Tables). t.users) after in
    (
      after,
      record {
        exists-used = elim [
          | skin ↦ λ x.
              deleted_directory db disk skin user w.tables.users w'.tables w.skins w'.skins x lawful
                unique.user_uuids member users (c.exists-used skin x) skins
          | cape ↦ λ x.
              deleted_directory db disk cape user w.tables.users w'.tables w.capes w'.capes x lawful
                unique.user_uuids member users (c.exists-used cape x) capes
        ];
      },
    )
