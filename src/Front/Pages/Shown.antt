-- ===== src/Front/Pages/Shown.antt =====
-- To whom the pages of profiles and of administration are shown.
use drasl.Prelude.{
  ◌≡◌, ◌⊎◌, inl, inr, ◌||◌, Bool, true, false, some, List, [], arith, Bytes, ◌==◌, Bool-cases,
  Option-cases,
}
use drasl.Errors.{ok, Result-cases}
use drasl.Flow.{run}
use drasl.App.{App}
use drasl.Model.Types.{User, Invite}
use drasl.Model.Ids.{uuid_to_id}
use drasl.Database.Tables.{Database, by_browser_token, by_username}
use drasl.Database.Laws.{In, IsLawful}
use drasl.Skins.{skin_url, cape_url}
use drasl.Front.Types.{Visit, ProfileView, rendered, profile_view, admin_view, Site}
use drasl.Front.Access.{with_browser_authentication, with_browser_admin}
use drasl.Front.Access.Sound.{column-some}
use drasl.Front.Pages.{
  front_admin, front_profile, show_profile, profile_target, make_profile_view, optional_url,
}

-- The user with the session of the browser's cookie
pub record HasSession (visit : Visit) (s : Site) (user : User) : Type 0 where
  pub member : In user s.tables.users
  pub own : (value : Bytes) × (visit.browser_token ≡ some value) × (user.browser_token ≡ some value)

-- The page of administration is shown only to a stored administrator with the session of the
-- browser's cookie, and it has the stored users and invites.
pub front_admin-HasSession :
    (app : App) (db : Database) (visit : Visit) (s s' : Site) (user : User) (users : List User)
    (invites : List Invite)
    → IsLawful db
    → run (front_admin app db visit) s ≡ (rendered (admin_view user users invites), s')
    → HasSession visit s user
      × (user.is_admin ≡ true)
      × (users ≡ s.tables.users)
      × (invites ≡ s.tables.invites)
unfolding front_admin with_browser_admin with_browser_authentication
front_admin-HasSession app db visit s s' user users invites lawful h =
    elim (Option-cases visit.browser_token) [
      | inl e ↦ absurd (ground arith)
      | inr (value, e) ↦ elim (Bool-cases (value == [])) [
        | inl blank ↦ absurd (ground arith)
        | inr set ↦ elim (Result-cases (db.first_user (by_browser_token value) s.tables)) [
          | inr (err', p) ↦ absurd (ground arith)
          | inl (u, p) ↦ elim (Bool-cases u.is_admin) [
            | inr other ↦ absurd (ground arith)
            | inl admin ↦ elim (Result-cases (db.find_users s.tables)) [
              | inr (err', q) ↦ absurd (ground arith)
              | inl (us, q) ↦ elim (Result-cases (db.find_invites s.tables)) [
                | inr (err', r) ↦ absurd (ground arith)
                | inl (is, r) ↦
                    let (member, own) =
                      lawful.first_user-ok (by_browser_token value) s.tables u p in
                    let same : u ≡ user = ground arith in
                    let a = lawful.find_users-ok s.tables us q in
                    let b = lawful.find_invites-ok s.tables is r in
                    (
                      rw (← same) (record {
                        member = member;
                        own = (value, e, column-some u.browser_token value own);
                      }),
                      rw (← same) admin,
                      ground arith,
                      ground arith,
                    )
              ]
            ]
          ]
        ]
      ]
    ]

make_profile_view-fields :
    (app : App) (user profile_user : User) (admin : Bool) (view : ProfileView)
    → make_profile_view app user profile_user admin ≡ ok view
    → (view.user ≡ user)
      × (view.profile_user ≡ profile_user)
      × (view.admin_view ≡ admin)
      × (uuid_to_id profile_user.uuid ≡ ok view.profile_user_id)
unfolding make_profile_view
make_profile_view-fields app user profile_user admin view h =
    elim (Result-cases (optional_url (skin_url app) profile_user.skin_hash)) [
      | inr (e, p) ↦ absurd (ground arith)
      | inl (skin, p) ↦ elim (Result-cases (optional_url (cape_url app) profile_user.cape_hash)) [
        | inr (e, q) ↦ absurd (ground arith)
        | inl (cape, q) ↦ elim (Result-cases (uuid_to_id profile_user.uuid)) [
          | inr (e, r) ↦ absurd (ground arith)
          | inl (id, r) ↦ (ground arith, ground arith, ground arith, ground arith)
        ]
      ]
    ]

-- Whose profile a user sees
abbrev pub IsVisible : Site → ProfileView → Type 0
IsVisible s view =
    ((view.profile_user ≡ view.user) × (view.admin_view ≡ false))
    ⊎ ((view.user.is_admin ≡ true) × In view.profile_user s.tables.users × (view.admin_view ≡ true))

show_profile-IsVisible :
    (app : App) (db : Database) (username : Bytes) (user : User) (s s' : Site) (view : ProfileView)
    → IsLawful db
    → run (show_profile app db username user) s ≡ (rendered (profile_view view), s')
    → (view.user ≡ user) × IsVisible s view
unfolding profile_target
show_profile-IsVisible app db username user s s' view lawful h =
    elim (Bool-cases (username == [] || username == user.username)) [
      | inl self ↦ elim (Result-cases (make_profile_view app user user false)) [
        | inr (e, p) ↦ absurd (ground arith)
        | inl (v, p) ↦
            let (a, b, c, _) = make_profile_view-fields app user user false v p in
            let e : v ≡ view = ground arith in rw (← e) (a, inl (ground arith, c))
      ]
      | inr other ↦ elim (Bool-cases user.is_admin) [
        | inr no_admin ↦ absurd (ground arith)
        | inl admin ↦ elim (Result-cases (db.first_user (by_username username) s.tables)) [
          | inr (e, p) ↦ absurd (ground arith)
          | inl (u, p) ↦
              let member = (lawful.first_user-ok (by_username username) s.tables u p).0 in
              elim (Result-cases (make_profile_view app user u true)) [
                | inr (e, q) ↦ absurd (ground arith)
                | inl (v, q) ↦
                    let (a, b, c, _) = make_profile_view-fields app user u true v q in
                    let e : v ≡ view = ground arith in
                    rw (← e) (a, inr (ground arith, rw b member, c))
              ]
        ]
      ]
    ]

-- The page of a profile is shown to a stored user with the session of the browser's cookie. It is the
-- user's own, or that of another stored user for an administrator, and then marked so.
pub front_profile-IsVisible :
    (app : App) (db : Database) (visit : Visit) (username : Bytes) (s s' : Site)
    (view : ProfileView)
    → IsLawful db
    → run (front_profile app db visit username) s ≡ (rendered (profile_view view), s')
    → HasSession visit s view.user × IsVisible s view
unfolding front_profile with_browser_authentication
front_profile-IsVisible app db visit username s s' view lawful h =
    elim (Option-cases visit.browser_token) [
      | inl e ↦ absurd (ground arith)
      | inr (value, e) ↦ elim (Bool-cases (value == [])) [
        | inl blank ↦ absurd (ground arith)
        | inr set ↦ elim (Result-cases (db.first_user (by_browser_token value) s.tables)) [
          | inr (err', p) ↦ absurd (ground arith)
          | inl (u, p) ↦
              let (member, own) = lawful.first_user-ok (by_browser_token value) s.tables u p in
              let (same, visible) =
                show_profile-IsVisible app db username u s s' view lawful (ground arith) in
              (
                rw same (record {
                  member = member;
                  own = (value, e, column-some u.browser_token value own);
                }),
                visible,
              )
        ]
      ]
    ]
