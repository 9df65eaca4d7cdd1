-- ===== src/Skins/Default.antt =====
-- The default textures: a file that a user's UUID chooses from a directory.
pub mod Chosen
use drasl.Prelude.{
  ℕ, zero, suc, ◌+◌, ◌*◌, ◌-◌, Bool, true, false, Option, none, some, List, [], ◌∷◌, ◌++◌, Bytes,
  codes, ◌==◌, nat_eq, drop, length, if◌then◌else◌,
}
use drasl.Errors.{Error, Result, ok, err, ◌>>=◌, ◌>>◌}
use drasl.App.{App, Env, Texture}
use drasl.Model.Types.{User, skin_model_slim, skin_model_classic}

-- `binary.BigEndian.Uint64`
unfoldable pub big_endian : ℕ → Bytes → ℕ
big_endian acc [] = acc
big_endian acc (b ∷ bytes) = big_endian (acc * 256 + b) bytes

unfoldable pub get_elem? : List Bytes → ℕ → Option Bytes
get_elem? [] i = none
get_elem? (x ∷ xs) zero = some x
get_elem? (x ∷ xs) (suc i) = get_elem? xs i

-- `ChooseFileForUser`; an index out of range would be a panic, and is an absent file here.
unfoldable pub choose_file_for_user : App → Env → User → Bytes → Result (Option Bytes)
unfolding big_endian get_elem?
choose_file_for_user app env user pattern = do
  filenames ← env.glob pattern
  if nat_eq (length filenames) 0 then ok none else (do
    user_uuid ← app.uuid_parse user.uuid
    ok (get_elem? filenames (app.rand_intn (big_endian 0 (drop 8 user_uuid)) (length filenames))))

-- `slimSkinRegex`, ".*slim\.png$": the text ends so.
unfoldable pub is_slim : Bytes → Bool
is_slim path = drop (length path - 8) path == codes "slim.png"

-- The URL of the chosen file and its path; every error is logged, and gives none.
unfoldable pub default_file : App → Env → User → Bytes → Option (Bytes × Bytes)
unfolding choose_file_for_user
default_file app env user name =
    let directory = app.path_join app.config.state_directory name in
    elim (choose_file_for_user app env user (app.path_join directory (codes "*.png"))) [
      | err _ ↦ none
      | ok none ↦ none
      | ok (some path) ↦ elim (app.filepath_rel directory path) [
        | err _ ↦ none
        | ok filename ↦
            elim (app.url_join_path app.front_end_url
              (codes "drasl/texture/" ++ (name ++ (b'/' ∷ filename)))) [
                | err _ ↦ none
                | ok url ↦ some (url, path)
              ]
      ]
    ]

unfoldable pub default_skin_texture : App → Env → User → Option Texture
unfolding default_file is_slim
default_skin_texture app env user = elim (default_file app env user (codes "default-skin")) [
  | none ↦ none
  | some (url, path) ↦ some (record {
    url = url;
    model = some (if is_slim path then skin_model_slim else skin_model_classic);
  })
]

unfoldable pub default_cape_texture : App → Env → User → Option Texture
unfolding default_file
default_cape_texture app env user = elim (default_file app env user (codes "default-cape")) [
  | none ↦ none
  | some (url, path) ↦ some (record { url = url; model = none })
]
