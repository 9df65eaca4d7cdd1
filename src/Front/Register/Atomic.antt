-- ===== src/Front/Register/Atomic.antt =====
-- A registration is done as a whole or not at all.
use drasl.Prelude.{
  ◌≡◌, refl, sym, ap, ◌∙◌, ◌⊎◌, inl, inr, false, not, Option, none, some, List, [], ◌∷◌, ◌++◌, keep,
  Bytes, ◌==◌, Bool-cases,
}
use drasl.Errors.{ok}
use drasl.Flow.{run}
use drasl.App.{App, Env}
use drasl.Model.Types.{User, Invite}
use drasl.Database.Tables.{Tables, Database, apply_all}
use drasl.Database.Laws.{In, IsLawful}
use drasl.Front.Types.{Visit, Cookie, Page, Site}
use drasl.Model.Validate.{validate_username, validate_password}
use drasl.Front.Access.{get_return_url}
use drasl.Front.NewUser.{make_user}
use drasl.Front.Login.Sound.{session_of}
use drasl.Front.Quiet.{IsQuiet-run}
use drasl.Front.Register.Admitted.{needs_invite, IsAdmitted}
use drasl.Front.Register.Stages.{
  finish-inverse, make_user-fields, check_registration-IsQuiet, check_registration-IsAdmitted,
  prepare_user-IsQuiet, prepare_user-next,
}
use drasl.Front.Register.{Registration, Account, registration, front_register}

-- What a registration that starts a session has made: the user that it stored, and the invite.
pub record IsRegistered (app : App) (form : Registration) (s s' : Site) (user : User)
    (invite : Option Invite) : Type 0 where
  pub name_ok : validate_username app user.username ≡ ok tt
  pub password_ok : validate_password app form.password ≡ ok tt
  pub hashed : app.scrypt_key form.password user.password_salt ≡ ok user.password_hash
  pub unlocked : user.is_locked ≡ false
  pub session : session_of s'.cookies ≡ user.browser_token
  pub stored : s'.tables.users ≡ s.tables.users ++ (user ∷ [])
  pub clients_kept : s'.tables.clients ≡ s.tables.clients
  pub invited :
      (needs_invite app form ≡ false)
      ⊎ ((i : Invite) × (invite ≡ some i)
          × In i s.tables.invites
          × (i.code ≡ form.invite_code)
          × (s'.tables.invites ≡ keep (λ (j : Invite). not (j.code == i.code)) s.tables.invites))

registration-users :
    (user : User) (invite : Option Invite) (t : Tables)
    → ((apply_all (registration user invite) t).users ≡ t.users ++ (user ∷ []))
      × ((apply_all (registration user invite) t).clients ≡ t.clients)
registration-users user none t = (refl, refl)
registration-users user (some i) t = (refl, refl)

no_session : (cookies : List Cookie) → cookies ≡ [] → session_of cookies ≡ none
unfolding session_of
no_session cookies e = ap session_of e

registered :
    (app : App) (env : Env) (db : Database) (form : Registration) (s s' : Site) (account : Account)
    (user : User) (token : Bytes)
    → IsLawful db
    → validate_password app form.password ≡ ok tt
    → IsAdmitted app db form s account (needs_invite app form)
    → make_user app env account.0 account.1 form.password ≡ ok (user, token)
    → (db.commit (registration user account.2) s.tables).0 ≡ none
    → s'.tables ≡ (db.commit (registration user account.2) s.tables).1
    → session_of s'.cookies ≡ some token
    → IsRegistered app form s s' user account.2
registered app env db form s s' account user token lawful password_ok a made committed written
      session =
    let (name, hash, unlocked, own_token) =
      make_user-fields app env account.0 account.1 form.password token user made in
    let after : s'.tables ≡ apply_all (registration user account.2) s.tables =
      written ∙ lawful.commit-ok (registration user account.2) s.tables committed in
    let (users, clients) = registration-users user account.2 s.tables in
    record {
      name_ok = rw name a.valid;
      password_ok = password_ok;
      hashed = hash;
      unlocked = unlocked;
      session = session ∙ sym own_token;
      stored = ap (λ (t : Tables). t.users) after ∙ users;
      clients_kept = ap (λ (t : Tables). t.clients) after ∙ clients;
      invited = elim (Bool-cases (needs_invite app form)) [
        | inr n ↦ inl n
        | inl y ↦
            let (i, used, member, code) = a.invited y in
            let left : s'.tables ≡ apply_all (registration user (some i)) s.tables =
              after ∙ ap (λ v. apply_all (registration user v) s.tables) used in
            inr (i, used, member, code, ap (λ (t : Tables). t.invites) left)
      ];
    }

-- From a request without cookies set yet, a registration either leaves the tables as they were and
-- starts no session, or it does all of this: it adds one row to the users, unlocked, with a valid
-- name and the hash of the form's password, which is valid; it keeps the clients; it sets the
-- session of that user; and where the kind of registration needs an invite, an invite with the code
-- of the form was stored and the invites with that code are deleted.
pub front_register-atomic :
    (app : App) (env : Env) (db : Database) (return_url : Bytes) (visit : Visit)
    (form : Registration) (s s' : Site) (page : Page)
    → IsLawful db
    → s.cookies ≡ []
    → run (front_register app env db return_url visit form) s ≡ (page, s')
    → ((s'.tables ≡ s.tables) × (session_of s'.cookies ≡ none))
      ⊎ ((user : User) × (invite : Option Invite) × IsRegistered app form s s' user invite)
unfolding front_register
front_register-atomic app env db return_url visit form s s' page lawful fresh h =
    let url = get_return_url app visit in
    elim (IsQuiet-run _ _ s s' page (check_registration-IsQuiet app env db visit form) h) [
      | inr (tables, session) ↦ inl (tables, session ∙ no_session s.cookies fresh)
      | inl (account, e₁, h₁) ↦
          elim (IsQuiet-run _ _ s s' page (prepare_user-IsQuiet app env db visit form url account)
            h₁) [
              | inr (tables, session) ↦ inl (tables, session ∙ no_session s.cookies fresh)
              | inl ((user, token), e₂, h₂) ↦
                  elim (finish-inverse db user account.2 token return_url s s' page lawful fresh
                    h₂) [
                      | inl (tables, session) ↦ inl (tables, session ∙ no_session s.cookies fresh)
                      | inr (committed, after, session) ↦
                          let (password_ok, admitted) =
                            check_registration-IsAdmitted app env db visit form s s account lawful
                              e₁ in
                          let made =
                            prepare_user-next app env db visit form url account s s (user, token)
                              e₂ in
                          inr (
                            user,
                            account.2,
                            registered app env db form s s' account user token lawful password_ok
                                admitted made committed after session,
                          )
                    ]
            ]
    ]
