-- ===== src/Front/Admin/Kept.antt =====
-- The administrators after `FrontUpdateUsers` of front.go.
use drasl.Prelude.{◌≡◌, ◌⊎◌, true, false, some, List, Bytes, All}
use drasl.Errors.{Error}
use drasl.App.{App}
use drasl.Model.Types.{User}
use drasl.Database.Tables.{Tables, Database, Statement, save_user}
use drasl.Database.Laws.{In, UniqueBy, IsLawful}
use drasl.Front.Admin.{should_be_admin, should_be_locked}
use drasl.Front.Admin.Edited.{edited, Saves}

abbrev pub IsUnlockedAdmin : User → Type 0
IsUnlockedAdmin u = (u.is_admin ≡ true) × (u.is_locked ≡ false)

-- The save of a user with its new rights fails, in a transaction with such saves of stored users.
abbrev pub FailsToSave : App → Database → (Bytes → Bytes) → List User → Type 0
FailsToSave app db form before =
    (u : User) × In u before
    × (pending : List Statement) × All (Saves app db form before) pending
    × (t : Tables) × (t.users ≡ before)
    × (e : Error) × (db.tx_exec (save_user (edited app form u)) pending t ≡ some e)

-- The user `u` is to be an unlocked administrator.
module _ (app : App) (db : Database) (form : Bytes → Bytes) (lawful : IsLawful db)
    (before : List User) (u : User) (unique : UniqueBy (λ (x : User). x.uuid) before)
    (member : In u before) (admin : should_be_admin app form u ≡ true)
    (unlocked : should_be_locked form u ≡ false) where
  -- The row of `u` is one of an unlocked administrator.
  abbrev Holds : List User → Type 0
  Holds users = (v : User) × In v users × (v.uuid ≡ u.uuid) × IsUnlockedAdmin v

  -- How `u` is an unlocked administrator after the loop
  abbrev Reaches : List Statement → Type 0
  Reaches pending =
      IsUnlockedAdmin u
      ⊎ (In (save_user (edited app form u)) pending ⊎ FailsToSave app db form before)
