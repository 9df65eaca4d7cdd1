-- ===== src/Skins/Default/Chosen.antt =====
-- The choice of a default texture.
use drasl.Prelude.{
  ℕ, zero, suc, ◌<◌, ◌≡◌, refl, inl, inr, some, List, [], ◌∷◌, arith, Bytes, drop, length,
}
use drasl.Errors.{ok}
use drasl.App.{App, Env}
use drasl.Model.Types.{User}
use drasl.Database.Laws.{In}
use drasl.Skins.Default.{big_endian, get_elem?, choose_file_for_user}

get_elem?-In :
    (xs : List Bytes) (i : ℕ) → i < length xs → (x : Bytes) × (get_elem? xs i ≡ some x) × In x xs
unfolding get_elem?
get_elem?-In [] i h = absurd (omega arith)
get_elem?-In (x ∷ xs) zero h = (x, refl, inl refl)
get_elem?-In (x ∷ xs) (suc i) h = let (y, e, m) = get_elem?-In xs i (omega arith) in (y, e, inr m)

-- `Intn` gives a number below its bound.
abbrev pub IsBounded : (ℕ → ℕ → ℕ) → Type 0
IsBounded intn = (seed n : ℕ) → 0 < n → intn seed n < n

-- Where the pattern has files and the user's UUID can be read, one of these files is chosen: the
-- index is in range.
pub choose_file_for_user-In :
    (app : App) (env : Env) (user : User) (pattern : Bytes) (files : List Bytes) (uuid : Bytes)
    → IsBounded app.rand_intn
    → env.glob pattern ≡ ok files
    → 0 < length files
    → app.uuid_parse user.uuid ≡ ok uuid
    → (path : Bytes) × (choose_file_for_user app env user pattern ≡ ok (some path)) × In path files
unfolding choose_file_for_user
choose_file_for_user-In app env user pattern files uuid bounded globbed some_file parsed =
    let index = app.rand_intn (big_endian 0 (drop 8 uuid)) (length files) in
    let (path, e, m) =
      get_elem?-In files index (bounded (big_endian 0 (drop 8 uuid)) (length files) some_file) in
    (path, ground arith, m)
