-- ===== src/Front/Register/Stages.antt =====
-- The three stages of a registration: what is checked, what is made, and the commit.
use drasl.Prelude.{
  ◌≡◌, refl, ap, ◌∙◌, ◌⊎◌, inl, inr, false, not, Option, none, some, [], arith, Bytes, codes, ◌==◌,
  Option-cases,
}
use drasl.Errors.{Result, ok, err, Result-cases, with_error, text}
use drasl.Flow.{run, next, pure, ◌>>◌}
use drasl.App.{App, Env, random_hex, strip_query_param}
use drasl.Model.Types.{User, Invite}
use drasl.Database.Tables.{Database}
use drasl.Database.Laws.{IsLawful}
use drasl.Front.Types.{try, Visit, browser_token, set_cookie, Page, redirect, Site}
use drasl.Model.Validate.{validate_username, validate_password, get_offline_uuid}
use drasl.Front.Access.{get_return_url}
use drasl.Front.NewUser.{make_user}
use drasl.Front.Login.Sound.{session_of}
use drasl.Front.Quiet.{IsQuiet, bind-IsQuiet, bind-next, try-IsQuiet, refuse_if-IsQuiet}
use drasl.Front.Register.Admitted.{accept-next, needs_invite, IsAdmitted, find_account-IsAdmitted}
use drasl.Front.Register.Steps.{
  accept-IsQuiet, find_account-IsQuiet, create_in_transaction-IsQuiet,
  delete_in_transaction-IsQuiet,
}
use drasl.Front.Register.{
  Registration, Account, commit_registration, registration, check_registration, prepare_user,
}

try-next : {A : Type 0} (r : Result A) (a : A) (s : Site) → try r s ≡ (next a, s) → r ≡ ok a
try-next (ok b) a s h = cc
try-next (err e) a s h = cc

pub finish-inverse :
    (db : Database) (user : User) (invite : Option Invite) (token url : Bytes) (s s' : Site)
    (page : Page)
    → IsLawful db
    → s.cookies ≡ []
    → run
        (commit_registration db user invite
          >> (set_cookie (browser_token token) >> pure (redirect url)))
        s
      ≡ (page, s')
    → ((s'.tables ≡ s.tables) × (session_of s'.cookies ≡ session_of s.cookies))
      ⊎ (((db.commit (registration user invite) s.tables).0 ≡ none)
          × (s'.tables ≡ (db.commit (registration user invite) s.tables).1)
          × (session_of s'.cookies ≡ some token))
unfolding commit_registration session_of
finish-inverse db user invite token url s s' page lawful fresh h =
    elim (Option-cases (db.commit (registration user invite) s.tables).0) [
      | inl e ↦ inr (e, ground arith, ground arith)
      | inr (e, p) ↦
          let kept = lawful.commit-failed (registration user invite) s.tables e p in
          inl (ground arith, ground arith)
    ]

pub make_user-fields :
    (app : App) (env : Env) (username account_uuid password token : Bytes) (user : User)
    → make_user app env username account_uuid password ≡ ok (user, token)
    → (user.username ≡ username)
      × (app.scrypt_key password user.password_salt ≡ ok user.password_hash)
      × (user.is_locked ≡ false)
      × (user.browser_token ≡ some token)
unfolding make_user
make_user-fields app env username account_uuid password token user h =
    elim (Result-cases (env.rand_read 16)) [
      | inr (e, p) ↦ absurd (ground arith)
      | inl (salt, p) ↦ elim (Result-cases (app.scrypt_key password salt)) [
        | inr (e, q) ↦ absurd (ground arith)
        | inl (hash, q) ↦ elim (Result-cases (random_hex env 32)) [
          | inr (e, r) ↦ absurd (ground arith)
          | inl (token', r) ↦ elim (Result-cases (get_offline_uuid app username)) [
            | inr (e, o) ↦ absurd (ground arith)
            | inl (offline, o) ↦ (ground arith, ground arith, ground arith, ground arith)
          ]
        ]
      ]
    ]

module _ (app : App) (env : Env) (db : Database) (visit : Visit) (form : Registration) where
  pub check_registration-IsQuiet : IsQuiet (check_registration app env db visit form)
  unfolding check_registration
  check_registration-IsQuiet =
      let url = get_return_url app visit in
      bind-IsQuiet _ _ (try-IsQuiet (strip_query_param app url (codes "invite"))) λ no_invite_url.
        bind-IsQuiet _ _
          (refuse_if-IsQuiet (not (form.email == [])) (text "You are now covered in bee stings.")
            url)
          λ _.
            bind-IsQuiet _ _
              (accept-IsQuiet (validate_username app form.username)
                (with_error "Invalid username: %s") url)
              λ _.
                bind-IsQuiet _ _
                  (accept-IsQuiet (validate_password app form.password)
                    (with_error "Invalid password: %s") url)
                  λ _. find_account-IsQuiet app env db form url no_invite_url

  -- The account of a registration that passes the checks
  pub check_registration-IsAdmitted :
      (s s' : Site) (account : Account)
      → IsLawful db
      → check_registration app env db visit form s ≡ (next account, s')
      → (validate_password app form.password ≡ ok tt)
        × IsAdmitted app db form s account (needs_invite app form)
  unfolding check_registration
  check_registration-IsAdmitted s s' account lawful h =
      let url = get_return_url app visit in
      let (no_invite_url, _, h₁) =
        bind-next _ _ s s' account (try-IsQuiet (strip_query_param app url (codes "invite"))) h in
      let (_, _, h₂) =
        bind-next _ _ s s' account
          (refuse_if-IsQuiet (not (form.email == [])) (text "You are now covered in bee stings.")
            url)
          h₁ in
      let (_, e₃, h₃) =
        bind-next _ _ s s' account
          (accept-IsQuiet (validate_username app form.username) (with_error "Invalid username: %s")
            url)
          h₂ in
      let (_, e₄, h₄) =
        bind-next _ _ s s' account
          (accept-IsQuiet (validate_password app form.password) (with_error "Invalid password: %s")
            url)
          h₃ in
      (
        accept-next (validate_password app form.password) (with_error "Invalid password: %s") url tt
            s e₄,
        find_account-IsAdmitted app env db form url no_invite_url lawful s s' account
            (accept-next (validate_username app form.username) (with_error "Invalid username: %s")
              url tt s e₃)
            h₄,
      )

  pub prepare_user-IsQuiet :
      (url : Bytes) (account : Account) → IsQuiet (prepare_user app env db url form account)
  unfolding prepare_user
  prepare_user-IsQuiet url account =
      bind-IsQuiet _ _ (try-IsQuiet (make_user app env account.0 account.1 form.password)) λ made.
        bind-IsQuiet _ _ (create_in_transaction-IsQuiet db made.0 url) λ _.
          bind-IsQuiet _ _ (delete_in_transaction-IsQuiet db made.0 account.2)
            λ _ s. inl (made, refl)

  pub prepare_user-next :
      (url : Bytes) (account : Account) (s s' : Site) (made : User × Bytes)
      → prepare_user app env db url form account s ≡ (next made, s')
      → make_user app env account.0 account.1 form.password ≡ ok made
  unfolding prepare_user
  prepare_user-next url account s s' made h =
      let (made', e₁, h₁) =
        bind-next _ _ s s' made (try-IsQuiet (make_user app env account.0 account.1 form.password))
          h in
      let (_, _, h₂) = bind-next _ _ s s' made (create_in_transaction-IsQuiet db made'.0 url) h₁ in
      let (_, _, h₃) =
        bind-next _ _ s s' made (delete_in_transaction-IsQuiet db made'.0 account.2) h₂ in
      let same : made' ≡ made = cc h₃ in
      try-next (make_user app env account.0 account.1 form.password) made' s e₁ ∙ ap ok same
