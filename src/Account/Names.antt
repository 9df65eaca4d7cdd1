-- ===== src/Account/Names.antt =====
-- Which players a list of names is answered with.
use drasl.Prelude.{◌≡◌, refl, sym, ap, ◌∙◌, List, [], ◌∷◌, arith, Bytes, eq_iff}
use drasl.Errors.{ok}
use drasl.Http.{json, status_ok}
use drasl.App.{App, CachedGet}
use drasl.Model.Types.{User}
use drasl.Model.Ids.{uuid_to_id}
use drasl.Database.Tables.{Tables, Database, by_player_name, nocase}
use drasl.Database.Laws.{In, HasUniqueKeys, IsLawful, Finds}
use drasl.Database.Rows.{UniqueBy-In}
use drasl.Account.{
  PlayerNameToUuidResponse, player_response, find_player, find_players, account_player_names_to_ids,
}

-- Each name is that of a stored user, up to case, and each player has the name as it is stored and
-- the ID of that user, in order.
abbrev pub AreFound : Tables → List Bytes → List PlayerNameToUuidResponse → Type 0
AreFound t [] [] = Unit
AreFound t [] (_ ∷ _) = ⊥
AreFound t (_ ∷ _) [] = ⊥
AreFound t (name ∷ names) (res ∷ rest) =
    ((user : User) × In user t.users
      × (nocase user.player_name ≡ nocase name)
      × (res.name ≡ user.player_name)
      × (uuid_to_id user.uuid ≡ ok res.id))
    × AreFound t names rest

module _ (db : Database) (t : Tables) (lawful : IsLawful db) (finds : Finds db)
    (unique : HasUniqueKeys t) where
  -- The row that the lookup of a player name gives is the user of that name.
  first_user-ok :
      (user : User) (name : Bytes)
      → In user t.users
      → nocase user.player_name ≡ nocase name
      → db.first_user (by_player_name name) t ≡ ok user
  first_user-ok user name m same =
      let found = (eq_iff (nocase user.player_name) (nocase name)).1 same in
      let (u, e) = finds.first_user_finds (by_player_name name) t user m found in
      let (n, named) = lawful.first_user-ok (by_player_name name) t u e in
      let this : u ≡ user =
        UniqueBy-In (λ (x : User). nocase x.player_name) u user t.users unique.player_names n m
          ((eq_iff (nocase u.player_name) (nocase name)).0 named ∙ sym same) in
      e ∙ ap ok this

  find_players-AreFound :
      (app : App) (cached_get : CachedGet) (names : List Bytes)
      (players : List PlayerNameToUuidResponse)
      → AreFound t names players
      → find_players app db cached_get t names ≡ ok players
  unfolding find_players find_player player_response
  find_players-AreFound app cached_get [] [] found = refl
  find_players-AreFound app cached_get [] (_ ∷ _) found = absurd found
  find_players-AreFound app cached_get (_ ∷ _) [] found = absurd found
  find_players-AreFound app cached_get (name ∷ names) (res ∷ rest)
        ((user, m, same, res_name, id), found) =
      let more = find_players-AreFound app cached_get names rest found in
      let loaded = first_user-ok user name m same in ground arith

-- Where the database answers and the keys are distinct, a list of names of stored users, in whatever
-- case, is answered with the stored names and the IDs of these users, one for each name and in the
-- order of the names, without any other server.
pub account_player_names_to_ids-AreFound :
    (app : App) (db : Database) (cached_get : CachedGet) (t : Tables) (names : List Bytes)
    (players : List PlayerNameToUuidResponse)
    → IsLawful db
    → Finds db
    → HasUniqueKeys t
    → AreFound t names players
    → account_player_names_to_ids app db cached_get (ok names) t ≡ json status_ok players
unfolding account_player_names_to_ids
account_player_names_to_ids-AreFound app db cached_get t names players lawful finds unique found =
    let all = find_players-AreFound db t lawful finds unique app cached_get names players found in
    ground arith
