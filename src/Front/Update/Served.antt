-- ===== src/Front/Update/Served.antt =====
-- The files of textures before and after `FrontUpdate` of front.go.
use drasl.Prelude.{
  ◌≡◌, refl, sym, ap, ◌∙◌, ◌⊎◌, inl, inr, ◌||◌, true, Option, none, some, List, [], arith, Bytes,
  Bool-cases, Option-cases,
}
use drasl.Util.{ptr_equals, ptr_equals_iff}
use drasl.Errors.{is_error_unique_failed}
use drasl.Flow.{run}
use drasl.App.{App, Env}
use drasl.Model.Types.{User}
use drasl.Database.Tables.{Tables, Database, put_user, column_is, save_user, apply}
use drasl.Database.Laws.{In, UniqueBy, HasUniqueKeys, IsLawful}
use drasl.Textures.{Kind, skin, cape, Disk, Files, hash_of, exists}
use drasl.Textures.Used.{used, others, any-In, any-put_user}
use drasl.Textures.Served.{Writes, IsServed, delete_keeps, write_texture_works}
use drasl.Front.Types.{Visit, Page, Site}
use drasl.Front.Access.{get_return_url}
use drasl.Front.Update.Rights.{Changes-HasSameRights}
use drasl.Front.Update.Sound.{front_update-inverse}
use drasl.Front.Fields.{UpdateForm, Download}
use drasl.Front.Update.{Edit, replace_texture, write_changed, buffer_of, save_edit, front_update}

write_changed_works :
    (disk : Disk) (hash : Option Bytes) (sent : Option (Bytes × Bytes)) (h : Bytes) (files : Files)
    → Writes disk
    → ((write_changed disk hash sent files).0 ≡ none)
      × (exists h (write_changed disk hash sent files).1 ≡ (column_is hash h || exists h files))
unfolding write_changed
write_changed_works disk none sent h files works = (refl, refl)
write_changed_works disk (some hash) sent h files works =
    write_texture_works disk hash (buffer_of sent) h files works

replace_texture_written :
    (kind : Kind) (db : Database) (disk : Disk) (old hash : Option Bytes)
    (sent : Option (Bytes × Bytes)) (t : Tables) (files : Files)
    → Writes disk
    → (replace_texture kind db disk old hash sent t files).0 ≡ true
unfolding replace_texture
replace_texture_written kind db disk old hash sent t files works =
    let written = (write_changed_works disk hash sent [] files works).0 in ground arith

-- One directory while a row is saved over an old one
replace_texture_lem :
    (db : Database) (disk : Disk) (kind : Kind) (old user : User) (sent : Option (Bytes × Bytes))
    (users : List User) (t : Tables) (files : Files) (h : Bytes)
    → IsLawful db
    → Writes disk
    → UniqueBy (λ (u : User). u.uuid) users
    → In old users
    → user.uuid ≡ old.uuid
    → t.users ≡ put_user user users
    → (used kind users h ≡ true → exists h files ≡ true)
    → used kind t.users h ≡ true
    → exists h (replace_texture kind db disk (hash_of kind old) (hash_of kind user) sent t files).1
      ≡ true
unfolding replace_texture
replace_texture_lem db disk kind old user sent users t files h lawful works unique member same after
      before needed =
    let p = λ (u : User). column_is (hash_of kind u) h in
    let a = any-In p old users unique member in
    let b = any-put_user p user users unique in
    let u : used kind t.users h ≡ (column_is (hash_of kind user) h || others old.uuid p users) =
      rw (after, b, same) refl in
    elim (Bool-cases (ptr_equals (hash_of kind old) (hash_of kind user))) [
      | inl y ↦
          let e = (ptr_equals_iff (hash_of kind old) (hash_of kind user)).0 y in
          let was : used kind users h ≡ true = rw (a, e) (sym u ∙ needed) in rw y (before was)
      | inr n ↦
          let (written, stored) = write_changed_works disk (hash_of kind user) sent h files works in
          let there : exists h (write_changed disk (hash_of kind user) sent files).1 ≡ true =
            ground arith in
          let kept =
            delete_keeps db disk kind (hash_of kind old) h t
              (write_changed disk (hash_of kind user) sent files).1 lawful needed there in
          rw (n, written) kept
    ]

-- The files that an update without a failing write leaves
save_edit-inverse :
    (db : Database) (disk : Disk) (url : Bytes) (old : User) (edit : Edit) (s s' : Site)
    (page : Page)
    → IsLawful db
    → Writes disk
    → run (save_edit db disk url old edit) s ≡ (page, s')
    → (s'.world ≡ s.world)
      ⊎ ((s'.tables ≡ apply (save_user edit.0) s.tables)
          × (s'.skins
              ≡ (replace_texture skin db disk old.skin_hash edit.0.skin_hash edit.1 s'.tables
                  s.skins).1)
          × (s'.capes
              ≡ (replace_texture cape db disk old.cape_hash edit.0.cape_hash edit.2 s'.tables
                  s.capes).1))
unfolding save_edit is_error_unique_failed
save_edit-inverse db disk url old edit s s' page lawful works h =
    let t = (db.exec (save_user edit.0) s.tables).1 in
    let a =
      replace_texture_written skin db disk old.skin_hash edit.0.skin_hash edit.1 t s.skins works in
    let b =
      replace_texture_written cape db disk old.cape_hash edit.0.cape_hash edit.2 t s.capes works in
    elim (Option-cases (db.exec (save_user edit.0) s.tables).0) [
      | inl e ↦
          inr
            (ground (arith, lawful.exec-ok (save_user edit.0) s.tables), ground arith, ground arith)
      | inr (e, p) ↦ inl (ground (arith, lawful.exec-failed (save_user edit.0) s.tables e))
    ]

-- Every texture that a user has keeps its file under an update, whether the update succeeds or not,
-- if no call of the file system that writes fails.
pub front_update-IsServed :
    (app : App) (env : Env) (db : Database) (disk : Disk) (download : Download) (visit : Visit)
    (form : UpdateForm) (s s' : Site) (page : Page)
    → IsLawful db
    → HasUniqueKeys s.tables
    → Writes disk
    → IsServed s.world
    → run (front_update app env db disk download visit form) s ≡ (page, s')
    → IsServed s'.world
front_update-IsServed app env db disk download visit form s s' page lawful unique works served h =
    elim (front_update-inverse app env db disk download visit form s s' page lawful h) [
      | inl same ↦ rw same served
      | inr (user, target, edit, is_edit, saving) ↦
          elim (save_edit-inverse db disk (get_return_url app visit) target edit s s' page lawful
            works saving) [
              | inl same ↦ rw same served
              | inr (tables, skins, capes) ↦
                  let member : In target s.tables.users = elim is_edit.target_lem [
                    | inl self ↦ rw self is_edit.member
                    | inr (admin, m) ↦ m
                  ] in
                  let kept = (Changes-HasSameRights is_edit.changes).uuid_lem in
                  let users : s'.tables.users ≡ put_user edit.0 s.tables.users =
                    ap (λ (t : Tables). t.users) tables in
                  record {
                    used-exists = elim [
                      | skin ↦ λ x needed. rw skins (
                          replace_texture_lem db disk skin target edit.0 edit.1 s.tables.users
                            s'.tables s.skins x lawful works unique.user_uuids member kept users
                            (served.used-exists skin x) needed)
                      | cape ↦ λ x needed. rw capes (
                          replace_texture_lem db disk cape target edit.0 edit.2 s.tables.users
                            s'.tables s.capes x lawful works unique.user_uuids member kept users
                            (served.used-exists cape x) needed)
                    ];
                  }
            ]
    ]
