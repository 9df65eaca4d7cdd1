-- ===== src/Textures/Served.antt =====
-- The weaker promise: every texture in use has its file.
use drasl.Prelude.{◌≡◌, inl, inr, ◌||◌, true, Option, none, some, arith, Bytes, ◌==◌, eq_iff}
use drasl.Errors.{Result-cases}
use drasl.Database.Tables.{Tables, Database}
use drasl.Database.Laws.{IsLawful}
use drasl.Textures.{
  Kind, World, Disk, Files, files_of, exists, in_use, remove_file, write_texture, delete_if_unused,
}
use drasl.Textures.Used.{used}
use drasl.Textures.Consistent.{in_use-used, exists-remove}

-- No call of the file system that writes fails.
pub record Writes (disk : Disk) : Type 0 where
  pub stat_works : (hash : Bytes) → disk.stat hash ≡ none
  pub mkdir_works : disk.mkdir_all ≡ none
  pub create_works : (hash : Bytes) → disk.create hash ≡ none
  pub write_works : (hash buf : Bytes) → disk.write hash buf ≡ none

-- Every texture in use has its file.
pub record IsServed (w : World) : Type 0 where
  pub used-exists :
      (kind : Kind) (h : Bytes)
      → used kind w.tables.users h ≡ true
      → exists h (files_of kind w) ≡ true

-- A deletion, even one that fails, leaves the files of textures in use.
pub delete_keeps :
    (db : Database) (disk : Disk) (kind : Kind) (old : Option Bytes) (h : Bytes) (t : Tables)
    (files : Files)
    → IsLawful db
    → used kind t.users h ≡ true
    → exists h files ≡ true
    → exists h (delete_if_unused kind db disk old t files).1 ≡ true
unfolding delete_if_unused remove_file
delete_keeps db disk kind none h t files lawful needed there = there
delete_keeps db disk kind (some hash) h t files lawful needed there =
    elim (Result-cases (in_use kind db hash t)) [
      | inr (e, p) ↦ ground arith
      | inl (b, p) ↦
          ground (
            arith,
            in_use-used db kind hash t b lawful p,
            exists-remove hash h files,
            eq_iff hash h,
          )
    ]

pub write_texture_works :
    (disk : Disk) (hash buf h : Bytes) (files : Files)
    → Writes disk
    → ((write_texture disk hash buf files).0 ≡ none)
      × (exists h (write_texture disk hash buf files).1 ≡ (hash == h || exists h files))
unfolding write_texture exists
write_texture_works disk hash buf h files works =
    let a = works.stat_works hash in
    let b = works.mkdir_works in
    let c = works.create_works hash in
    let d = works.write_works hash buf in let e = eq_iff hash h in (ground arith, ground arith)
