-- ===== src/Front/Admin.antt =====
-- The administrators' handlers: invites, and the rights of users.
pub mod Safe
pub mod Edited
pub mod Kept
use drasl.Prelude.{
  ℕ, ◌||◌, ◌&&◌, Bool, true, false, not, Option, none, some, List, [], ◌∷◌, ◌++◌, Bytes, codes,
  ◌==◌, if◌then◌else◌,
}
use drasl.Util.{contains}
use drasl.Errors.{Error, text, Result, ok, err}
use drasl.Flow.{Flow, Exec, next, done, pure, stop, gets, ◌>>=◌, ◌>>◌}
use drasl.App.{App, Env, random_base62}
use drasl.Model.Types.{User, Invite}
use drasl.Database.Tables.{Tables, Database, Statement, save_user, create_invite, delete_invite}
use drasl.Auth.{invalidate_user}
use drasl.Front.Types.{
  Visit, success_message, Page, failed, redirect, Site, Handler, set_cookie, refuse, try, check,
  call,
}
use drasl.Front.Access.{get_return_url, with_browser_admin}

-- POST /drasl/admin/delete-invite; `return_url` is joined when the server starts.
unfoldable pub front_delete_invite : App → Database → Bytes → Visit → Bytes → Handler Page
unfolding with_browser_admin
front_delete_invite app db return_url visit invite_code = with_browser_admin app db visit λ user. do
  failed_delete ← call (db.exec (delete_invite invite_code))
  check failed_delete
  pure (redirect return_url)

-- `CreateInvite` of common.go: the invite or the error, and the tables that it leaves.
unfoldable pub make_invite : App → Env → Database → Tables → Result Invite × Tables
make_invite app env db t = elim (random_base62 app env 8) [
  | err e ↦ (err e, t)
  | ok code ↦
      let invite : Invite = record { code = code; created_at = env.now } in
      let (failed_create, t') = db.exec (create_invite invite) t in
      elim failed_create [ some e ↦ (err e, t') | none ↦ (ok invite, t') ]
]

-- A step on the tables that gives a value or an error
abbrev pub work : {A : Type 0} → (Tables → Result A × Tables) → Handler (Result A)
work f s = (next (f s.tables).0, record s { world = record s.world { tables = (f s.tables).1 } })

abbrev pub after_invite : App → Visit → Result Invite → Handler Page
after_invite app visit (err _) =
    refuse (text "Error creating new invite.") (get_return_url app visit)
after_invite app visit (ok _) = pure (redirect (get_return_url app visit))

-- POST /drasl/admin/new-invite
unfoldable pub front_new_invite : App → Env → Database → Visit → Handler Page
unfolding with_browser_admin make_invite
front_new_invite app env db visit =
    with_browser_admin app db visit
      λ user. do created ← work (make_invite app env db); after_invite app visit created

-- `IsDefaultAdmin` of common.go
unfoldable pub is_default_admin : App → User → Bool
is_default_admin app user = contains app.config.default_admins user.username

-- `SetIsLocked` of common.go: the user, and the error of `InvalidateUser`, which runs outside the
-- transaction.
unfoldable pub set_is_locked : Database → User → Bool → Tables → User × Option Error × Tables
unfolding invalidate_user
set_is_locked db user false t = (record user { is_locked = false }, none, t)
set_is_locked db user true t =
    let user' = record user { is_locked = true; browser_token = none } in
    let (failed_invalidate, t') = invalidate_user db user' t in (user', failed_invalidate, t')

-- The form's checkboxes, by name.
abbrev pub is_on : (Bytes → Bytes) → Bytes → Bytes → Bool
is_on form prefix username = form (prefix ++ username) == codes "on"

abbrev pub should_be_admin : App → (Bytes → Bytes) → User → Bool
should_be_admin app form user =
    is_default_admin app user || is_on form (codes "admin-") user.username

abbrev pub should_be_locked : (Bytes → Bytes) → User → Bool
should_be_locked form user = is_on form (codes "locked-") user.username

abbrev pub bool_eq : Bool → Bool → Bool
bool_eq true b = b
bool_eq false b = not b

-- `tx.Save(user)`, whose error is dropped: a save that fails adds nothing to the transaction.
save_in_transaction : Database → User → List Statement → Tables → List Statement
save_in_transaction db user pending t = elim (db.tx_exec (save_user user) pending t) [
  | none ↦ pending ++ (save_user user ∷ [])
  | some _ ↦ pending
]

-- One pass of the loop: the pending statements, or the error.
unfoldable pub update_user :
    App
    → Database
    → (Bytes → Bytes)
    → User
    → List Statement
    → Tables
    → Result (List Statement) × Tables
unfolding set_is_locked save_in_transaction
update_user app db form user pending t =
    if bool_eq user.is_admin (should_be_admin app form user)
      && bool_eq user.is_locked (should_be_locked form user)
    then (ok pending, t)
    else let (user', failed_lock, t') =
        set_is_locked db (record user { is_admin = should_be_admin app form user })
          (should_be_locked form user) t in
      elim failed_lock [
        | some e ↦ (err e, t')
        | none ↦ (ok (save_in_transaction db user' pending t'), t')
      ]

unfoldable pub update_all :
    App
    → Database
    → (Bytes → Bytes)
    → List User
    → List Statement
    → Tables
    → Result (List Statement) × Tables
unfolding update_user
update_all app db form [] pending t = (ok pending, t)
update_all app db form (user ∷ users) pending t =
    let (updated, t') = update_user app db form user pending t in
    elim updated [ err e ↦ (err e, t') | ok pending' ↦ update_all app db form users pending' t' ]

-- `anyUnlockedAdmins` after the loop
unfoldable pub any_unlocked_admins : App → (Bytes → Bytes) → List User → Bool
any_unlocked_admins app form [] = false
any_unlocked_admins app form (user ∷ users) =
    should_be_admin app form user && not (should_be_locked form user)
    || any_unlocked_admins app form users

-- The rest of FrontUpdateUsers for an administrator. The error of the commit is dropped.
unfoldable pub update_users : App → Database → Visit → (Bytes → Bytes) → Handler Page
unfolding get_return_url update_all
update_users app db visit form = do
  found ← gets (λ s. db.find_users s.tables)
  users ← try found
  updated ← work (update_all app db form users [])
  pending ← try updated
  if not (any_unlocked_admins app form users)
      then refuse (text "There must be at least one unlocked admin account.")
          (get_return_url app visit)
      else (do
        call (db.commit pending)
        set_cookie (success_message (text "Changes saved."))
        pure (redirect (get_return_url app visit)))

-- POST /drasl/admin/update-users
unfoldable pub front_update_users : App → Database → Visit → (Bytes → Bytes) → Handler Page
unfolding with_browser_admin update_users
front_update_users app db visit form =
    with_browser_admin app db visit λ user. update_users app db visit form
