-- ===== src/Examples/Account.antt =====
-- Names of players at a concrete input.
use drasl.Prelude.{inl, ◌≡◌, refl, [], ◌∷◌, codes, ◌==◌}
use drasl.Errors.{ok, err, text}
use drasl.Http.{json, status_ok}
use drasl.App.{CachedGet}
use drasl.Model.Ids.{uuid_to_id}
use drasl.Database.Tables.{nocase}
use drasl.Database.Laws.{HasUniqueKeys}
use drasl.Database.Memory.{
  memory, memory-IsLawful, memory-Finds, keys_unique, HasUniqueKeys-keys_unique,
}
use drasl.Account.{PlayerNameToUuidResponse, account_player_names_to_ids}
use drasl.Account.Names.{account_player_names_to_ids-AreFound}
use drasl.Examples.Setup.{app, alice, tables}

abbrev unreachable : CachedGet
unreachable = λ _ _. err (text "unreachable")

abbrev player : PlayerNameToUuidResponse
player = record { name = codes "Alice"; id = codes "aaaaaaaaaaaaaaaaaaaaaaaaaaaaaaaa" }

tables-HasUniqueKeys : HasUniqueKeys tables
unfolding keys_unique ◌==◌ nocase
tables-HasUniqueKeys = HasUniqueKeys-keys_unique tables refl

alice_named : nocase alice.player_name ≡ nocase (codes "aLICE")
unfolding nocase
alice_named = refl

alice_id : uuid_to_id alice.uuid ≡ ok player.id
unfolding uuid_to_id
alice_id = refl

account_player_names_to_ids-AreFound_example :
    account_player_names_to_ids app memory unreachable (ok (codes "aLICE" ∷ [])) tables
    ≡ json status_ok (player ∷ [])
account_player_names_to_ids-AreFound_example =
    account_player_names_to_ids-AreFound app memory unreachable tables (codes "aLICE" ∷ [])
      (player ∷ []) memory-IsLawful memory-Finds tables-HasUniqueKeys
      ((alice, inl refl, alice_named, refl, alice_id), tt)
