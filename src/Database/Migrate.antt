-- ===== src/Database/Migrate.antt =====
-- db.go: the migration of an older database. The schema of version 0 has no offline UUIDs; that of
-- version 1 has no client tokens apart from the primary keys of the clients.
pub mod Filled
use drasl.Prelude.{
  ℕ, ◌+◌, Bool, true, false, Option, none, some, List, [], ◌∷◌, map, Bytes, nat_eq, ltb,
  if◌then◌else◌,
}
use drasl.Errors.{Error, Result, ok, err, ◌>>=◌}
use drasl.App.{App}
use drasl.Model.Types.{User, Client}
use drasl.Model.Validate.{get_offline_uuid}
use drasl.Database.Tables.{Tables}

abbrev pub current_user_version : ℕ
current_user_version = 2

-- The rows with `PRAGMA user_version`. A column that the schema does not have yet is empty.
pub record Store : Type 0 where
  pub user_version : ℕ
  pub tables : Tables

-- The statements of the migration that may fail, each by itself
pub record Migrator : Type 0 where
  pub read_version : Option Error
  pub add_offline_uuid : Option Error
  pub find : Option Error
  pub update_offline_uuid : User → Option Error
  pub rename_client_token : Option Error
  pub add_client_token : Option Error
  pub update_client_token : Option Error
  pub auto_migrate_user : Option Error
  pub auto_migrate_client : Option Error
  pub auto_migrate_invite : Option Error
  pub write_version : Option Error
  pub commit : Option Error

abbrev checked : Option Error → Result (Unit {0})
checked none = ok tt
checked (some e) = err e

-- The loop over the users of version 0
unfoldable pub fill_offline_uuids : App → Migrator → List User → Result (List User)
fill_offline_uuids app m [] = ok []
fill_offline_uuids app m (user ∷ users) = do
  offline_uuid ← get_offline_uuid app user.player_name
  updated ← checked (m.update_offline_uuid user)
  rest ← fill_offline_uuids app m users
  ok (record user { offline_uuid = offline_uuid } ∷ rest)

unfoldable pub migrate_0_to_1 : App → Migrator → Tables → Result Tables
unfolding fill_offline_uuids
migrate_0_to_1 app m t = do
  added ← checked m.add_offline_uuid
  found ← checked m.find
  users ← fill_offline_uuids app m t.users
  ok (record t { users = users })

-- `client_token` is renamed to `uuid`, and the new column is set to `uuid`.
abbrev pub rename_token : Client → Client
rename_token c = record c { client_token = c.uuid }

unfoldable pub migrate_1_to_2 : Migrator → Tables → Result Tables
migrate_1_to_2 m t = do
  renamed ← checked m.rename_client_token
  added ← checked m.add_client_token
  updated ← checked m.update_client_token
  ok (record t { clients = map rename_token t.clients })

abbrev step_0 : App → Migrator → Store → Result Store
step_0 app m s =
    if nat_eq s.user_version 0
    then (do t ← migrate_0_to_1 app m s.tables; ok (record { user_version = 1; tables = t }))
    else ok s

abbrev step_1 : Migrator → Store → Result Store
step_1 m s =
    if nat_eq s.user_version 1
    then (do t ← migrate_1_to_2 m s.tables; ok (record { user_version = 2; tables = t }))
    else ok s

-- The function of the transaction. `AutoMigrate` changes no row.
unfoldable pub migrate_steps : App → Migrator → Store → Result Store
unfolding migrate_0_to_1 migrate_1_to_2
migrate_steps app m s = do
  s₁ ← step_0 app m s
  s₂ ← step_1 m s₁
  users ← checked m.auto_migrate_user
  clients ← checked m.auto_migrate_client
  invites ← checked m.auto_migrate_invite
  written ← checked m.write_version
  ok s₂

-- `db.Transaction`: what the function did is kept only if it and the commit succeed.
abbrev transaction : Migrator → Store → Result Store → Option Error × Store
transaction m s (err e) = (some e, s)
transaction m s (ok s') = elim m.commit [ none ↦ (none, s') | some e ↦ (some e, s) ]

-- `migrate`. An error of reading the version ends it with no error and no migration. A new database
-- counts as one of the current version.
unfoldable pub migrate : App → Migrator → Bool → Store → Option Error × Store
unfolding migrate_steps
migrate app m false s =
    transaction m s (migrate_steps app m (record s { user_version = current_user_version }))
migrate app m true s = elim m.read_version [
  | some _ ↦ (none, s)
  | none ↦ transaction m s (migrate_steps app m s)
]
