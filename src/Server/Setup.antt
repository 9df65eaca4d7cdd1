-- ===== src/Server/Setup.antt =====
-- The end of `setup` in main.go: default administrators, and the first invite.
pub mod Ready
use drasl.Prelude.{
  ℕ, ◌||◌, ◌&&◌, Bool, true, false, not, Option, none, some, Bytes, codes, ◌++◌, nat_eq,
  if◌then◌else◌,
}
use drasl.Errors.{Error, Result, ok, err, is_not_found, ◌>>=◌}
use drasl.Flow
use drasl.Flow.{Exec, next, done}
use drasl.App.{App, Env}
use drasl.Model.Types.{Invite}
use drasl.Database.Tables.{Tables, Database, make_admins}
use drasl.Front.Admin.{make_invite}

-- The first invite that there is, or else a new one. An error ends the process.
unfoldable pub first_invite : App → Env → Database → Tables → Result Invite × Tables
unfolding make_invite
first_invite app env db t = elim (db.any_invite t) [
  | ok invite ↦ (ok invite, t)
  | err e ↦ if is_not_found e then make_invite app env db t else (err e, t)
]

unfoldable pub needs_first_invite : App → Bool
needs_first_invite app =
    let new = app.config.registration_new_player in
    let existing = app.config.registration_existing_player in
    not app.config.test_mode
    && (new.allow && new.require_invite || existing.allow && existing.require_invite)

-- `InviteURL` of model.go
unfoldable pub invite_url : App → Invite → Result Bytes
invite_url app invite = do
  url ← app.url_join_path app.front_end_url (codes "drasl/registration")
  ok (url ++ (codes "?invite=" ++ invite.code))

abbrev printed : App → Result Invite × Tables → Result (Option Bytes) × Tables
printed app (err e, t) = (err e, t)
printed app (ok invite, t) = elim (invite_url app invite) [
  | err e ↦ (err e, t)
  | ok url ↦ (ok (some url), t)
]

-- The URL that is printed if there are no users.
unfoldable pub print_first_invite : App → Env → Database → Tables → Result (Option Bytes) × Tables
unfolding first_invite needs_first_invite invite_url
print_first_invite app env db t =
    if not (needs_first_invite app) then (ok none, t) else elim (db.count_users t) [
      | err e ↦ (err e, t)
      | ok count ↦ if nat_eq count 0 then printed app (first_invite app env db t) else (ok none, t)
    ]

-- What `setup` does with the tables, and the URL that it prints, or the error that ends the process.
unfoldable pub setup_tables : App → Env → Database → Tables → Result (Option Bytes) × Tables
unfolding print_first_invite
setup_tables app env db t =
    let (failed_update, t') = db.exec (make_admins app.config.default_admins) t in
    elim failed_update [ some e ↦ (err e, t') | none ↦ print_first_invite app env db t' ]
