-- ===== src/Front/Access/Sound.antt =====
-- Who passes the administrators' check.
use drasl.Prelude.{
  ◌≡◌, ◌⊎◌, inl, inr, true, Option, none, some, [], arith, Bytes, ◌==◌, eq_iff, Option-cases,
  Bool-cases,
}
use drasl.Errors.{Result-cases}
use drasl.Flow.{run}
use drasl.App.{App}
use drasl.Model.Types.{User}
use drasl.Database.Tables.{Database, by_browser_token, column_is}
use drasl.Database.Laws.{In, IsLawful}
use drasl.Front.Types.{Visit, Page, Site, Handler}
use drasl.Front.Access.{with_browser_authentication, with_browser_admin}

pub column-some :
    (column : Option Bytes) (value : Bytes) → column_is column value ≡ true → column ≡ some value
column-some none value h = absurd (cc h)
column-some (some a) value h = ground (arith, eq_iff a value)

-- A handler for administrators leaves the tables alone, or it does what it does for a stored user
-- who is an administrator and whose session is the one of the browser's cookie.
pub with_browser_admin-In :
    (app : App) (db : Database) (visit : Visit) (f : User → Handler Page) (s s' : Site)
    (page : Page)
    → IsLawful db
    → run (with_browser_admin app db visit f) s ≡ (page, s')
    → (s'.tables ≡ s.tables)
      ⊎ ((user : User) × (value : Bytes) × In user s.tables.users
          × (user.is_admin ≡ true)
          × (visit.browser_token ≡ some value)
          × (user.browser_token ≡ some value)
          × (run (f user) s ≡ (page, s')))
unfolding with_browser_admin with_browser_authentication
with_browser_admin-In app db visit f s s' page lawful h = elim (Option-cases visit.browser_token) [
  | inl e ↦ inl (ground arith)
  | inr (value, e) ↦ elim (Bool-cases (value == [])) [
    | inl blank ↦ inl (ground arith)
    | inr set ↦ elim (Result-cases (db.first_user (by_browser_token value) s.tables)) [
      | inr (err', p) ↦ inl (ground arith)
      | inl (user, p) ↦ elim (Bool-cases user.is_admin) [
        | inr other ↦ inl (ground arith)
        | inl admin ↦
            let (member, own) = lawful.first_user-ok (by_browser_token value) s.tables user p in
            inr (
              user,
              value,
              member,
              admin,
              e,
              column-some user.browser_token value own,
              ground arith,
            )
      ]
    ]
  ]
]
