-- ===== src/Examples/Textures.antt =====
-- Textures at concrete inputs: a user with a skin gets another one, and is deleted.
use drasl.Prelude.{◌≡◌, refl, Bool-cases, inl, inr, none, some, [], ◌∷◌, codes, ◌==◌}
use drasl.Errors.{ok}
use drasl.App.{hex_encode}
use drasl.Model.Types.{User}
use drasl.Database.Tables.{apply, delete_user, put_user, nocase}
use drasl.Database.Laws.{HasUniqueKeys}
use drasl.Database.Memory.{memory, memory-IsLawful, keys_unique, HasUniqueKeys-keys_unique}
use drasl.Textures.{
  skin, cape, World, Disk, Upload, exists, remove, read_upload, write_texture, delete_if_unused,
  set_texture_and_save, delete_user_and_textures,
}
use drasl.Textures.Consistent.{IsConsistent, set_texture_and_save-IsConsistent}
use drasl.Textures.Delete.{delete_user_and_textures-IsConsistent}
use drasl.Examples.Setup.{app, alice, tables}

abbrev disk : Disk
disk = record {
  stat = λ _. none;
  mkdir_all = none;
  create = λ _. none;
  write = λ _ _. none;
  remove = λ _. none;
}

abbrev alice_skin : User
alice_skin = record alice { skin_hash = some (codes "old") }

abbrev world : World
world = record {
  tables = record tables { users = alice_skin ∷ [] };
  skins = (codes "old", codes "png") ∷ [];
  capes = [];
}

world-HasUniqueKeys : HasUniqueKeys world.tables
unfolding keys_unique ◌==◌ nocase
world-HasUniqueKeys = HasUniqueKeys-keys_unique world.tables refl

world-IsConsistent : IsConsistent world
unfolding exists
world-IsConsistent = record {
  exists-used = elim [
    | skin ↦ λ h. elim (Bool-cases (codes "old" == h)) [ inl y ↦ rw y refl | inr n ↦ rw n refl ]
    | cape ↦ λ h. refl
  ];
}

abbrev upload : Upload
upload = record { size = ok (64, 64); body = ok (1 ∷ 2 ∷ []) }

abbrev alice_new : User
alice_new = record alice { skin_hash = some (codes "0102") }

abbrev world_new : World
world_new = record {
  tables = record tables { users = alice_new ∷ [] };
  skins = (codes "0102", 1 ∷ 2 ∷ []) ∷ [];
  capes = [];
}

set_run :
    set_texture_and_save skin app memory disk alice_skin (some upload) world
    ≡ (ok alice_new, world_new)
unfolding set_texture_and_save read_upload write_texture delete_if_unused exists remove memory
    keys_unique put_user hex_encode nocase ◌==◌
set_run = refl

set_texture_and_save-IsConsistent_example : IsConsistent world_new
set_texture_and_save-IsConsistent_example =
    set_texture_and_save-IsConsistent skin app memory disk alice_skin alice_new (some upload) world
      world_new memory-IsLawful world-HasUniqueKeys (inl refl) world-IsConsistent set_run

abbrev world_empty : World
world_empty = record { tables = record tables { users = [] }; skins = []; capes = [] }

delete_run : delete_user_and_textures memory disk alice_skin world ≡ (none, world_empty)
unfolding delete_user_and_textures delete_if_unused exists remove memory keys_unique nocase ◌==◌
delete_run = refl

delete_user_and_textures-IsConsistent_example :
    (world_empty.tables ≡ apply (delete_user alice_skin.uuid) world.tables)
    × IsConsistent world_empty
delete_user_and_textures-IsConsistent_example =
    delete_user_and_textures-IsConsistent memory disk alice_skin world world_empty memory-IsLawful
      world-HasUniqueKeys (inl refl) world-IsConsistent delete_run
