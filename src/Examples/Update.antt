-- ===== src/Examples/Update.antt =====
-- An update of an account at a concrete input: a user gets a new skin and another player name.
use drasl.Prelude.{◌≡◌, refl, ◌⊎◌, false, none, some, [], ◌∷◌, ◌++◌, codes, ◌==◌}
use drasl.Errors.{ok, err, text}
use drasl.Flow.{run}
use drasl.Model.Types.{User, skin_model_slim}
use drasl.Database.Tables.{apply, save_user, nocase}
use drasl.Database.Laws.{HasUniqueKeys}
use drasl.Database.Memory.{memory, memory-IsLawful, keys_unique, HasUniqueKeys-keys_unique}
use drasl.Textures.{skin, cape, Disk, exists, remove}
use drasl.Textures.Served.{Writes, IsServed}
use drasl.Front.Types.{Visit, Page, Site}
use drasl.Front.Fields.{TextureForm, UpdateForm, Download}
use drasl.Front.Update.{front_update}
use drasl.Front.Update.Sound.{IsEdit, front_update-IsEdit}
use drasl.Front.Update.Served.{front_update-IsServed}
use drasl.Examples.Setup.{app, env, alice, tables}

abbrev disk : Disk
disk = record {
  stat = λ _. none;
  mkdir_all = none;
  create = λ _. none;
  write = λ _ _. none;
  remove = λ _. none;
}

disk-Writes : Writes disk
disk-Writes = record {
  stat_works = λ _. refl;
  mkdir_works = refl;
  create_works = λ _. refl;
  write_works = λ _ _. refl;
}

abbrev download : Download
download = λ _. err (text "unreachable")

abbrev old : User
old = record alice { browser_token = some (codes "tok"); skin_hash = some (codes "old") }

abbrev site : Site
site = record {
  world = record {
    tables = record tables { users = old ∷ [] };
    skins = (codes "old", codes "png") ∷ [];
    capes = [];
  };
  cookies = [];
}

abbrev visit : Visit
visit = record {
  form_return_url = [];
  query_return_url = [];
  query_username = [];
  browser_token = some (codes "tok");
}

abbrev no_texture : TextureForm
no_texture = record { file = none; url = []; delete = false }

abbrev new_texture : TextureForm
new_texture = record {
  file = some (ok (record { size = ok (64, 64); body = ok (1 ∷ 2 ∷ []) }));
  url = [];
  delete = false;
}

abbrev form : UpdateForm
form = record {
  username = [];
  player_name = codes "Bob";
  fallback_player = [];
  password = [];
  preferred_language = [];
  skin_model = skin_model_slim;
  skin = new_texture;
  cape = no_texture;
}

abbrev result : Page × Site
result = run (front_update app env memory disk download visit form) site

front_update-IsEdit_example :
    (result.1.tables ≡ site.tables)
    ⊎ ((user : User) × (target : User) × (edited : User) × IsEdit app env visit form site user
          target edited
        × (result.1.tables ≡ apply (save_user edited) site.tables))
front_update-IsEdit_example =
    front_update-IsEdit app env memory disk download visit form site result.1 result.0
      memory-IsLawful refl

abbrev edited : User
edited = record old {
  player_name = codes "Bob";
  offline_uuid = codes "Offlin" ++ (53 ∷ 80 ∷ 172 ∷ codes "ayer:Bob");
  name_last_changed_at = env.now;
  skin_model = skin_model_slim;
  skin_hash = some (codes "0102");
}

site-HasUniqueKeys : HasUniqueKeys site.tables
unfolding keys_unique ◌==◌ nocase
site-HasUniqueKeys = HasUniqueKeys-keys_unique site.tables refl

site-IsServed : IsServed site.world
unfolding exists
site-IsServed = record {
  used-exists = elim [ skin ↦ λ h needed. needed | cape ↦ λ h needed. needed ];
}

front_update-IsServed_example : IsServed result.1.world
front_update-IsServed_example =
    front_update-IsServed app env memory disk download visit form site result.1 result.0
      memory-IsLawful site-HasUniqueKeys disk-Writes site-IsServed refl
