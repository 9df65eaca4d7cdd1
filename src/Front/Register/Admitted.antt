-- ===== src/Front/Register/Admitted.antt =====
-- What the account of a registration was checked for.
use drasl.Prelude.{
  ◌≡◌, sym, ap, subst, ◌∙◌, inl, inr, Bool, true, false, not, Option, some, arith, Bytes,
  if◌then◌else◌, Bool-cases,
}
use drasl.Errors.{Error, Result, ok, err, Result-cases, with_error, text}
use drasl.Flow.{Flow, next}
use drasl.App.{App, Env}
use drasl.Model.Types.{Invite}
use drasl.Database.Tables.{Database}
use drasl.Database.Laws.{In, IsLawful}
use drasl.Front.Types.{Page, Site}
use drasl.Front.Challenge.{validate_challenge}
use drasl.Model.Validate.{validate_username}
use drasl.Front.Quiet.{refuse_if-IsQuiet, bind-next}
use drasl.Front.Register.Steps.{accept-IsQuiet, find_invite-IsQuiet, choose_uuid-IsQuiet}
use drasl.Front.Register.{
  Registration, Account, accept, challenge_message, find_invite, existing_account, new_account,
  find_account,
}

pub accept-next :
    {A : Type 0} (r : Result A) (message : Error → Error) (url : Bytes) (a : A) (s : Site)
    → accept r message url s ≡ (next a, s)
    → r ≡ ok a
unfolding accept
accept-next (ok b) message url a s h = cc
accept-next (err e) message url a s h = cc

find_invite-next :
    (db : Database) (required : Bool) (code url : Bytes) (s s' : Site) (invite : Option Invite)
    → IsLawful db
    → find_invite db required code url s ≡ (next invite, s')
    → required ≡ true
    → (i : Invite) × (invite ≡ some i) × In i s.tables.invites × (i.code ≡ code)
unfolding find_invite
find_invite-next db false code url s s' invite lawful h required = absurd (cc required)
find_invite-next db true code url s s' invite lawful h required =
    elim (Result-cases (db.first_invite code s.tables)) [
      | inr (e, p) ↦ ground arith
      | inl (i, p) ↦
          let (member, same) = lawful.first_invite-ok code s.tables i p in
          (i, ground arith, member, same)
    ]

abbrev pub needs_invite : App → Registration → Bool
needs_invite app form =
    if form.existing_player
    then app.config.registration_existing_player.require_invite
    else app.config.registration_new_player.require_invite

-- The name of an account is valid, and its invite is the one of the form if one is needed.
pub record IsAdmitted (app : App) (db : Database) (form : Registration) (s : Site)
    (account : Account) (required : Bool) : Type 0 where
  pub valid : validate_username app account.0 ≡ ok tt
  pub invited :
      required ≡ true
      → (i : Invite) × (account.2 ≡ some i) × In i s.tables.invites × (i.code ≡ form.invite_code)

same_result :
    (a b : Account) (s s' : Site)
    → ◌≡◌ {A = Flow Page Account × Site} (next a, s) (next b, s')
    → a ≡ b
same_result a b s s' h = cc

module _ (app : App) (env : Env) (db : Database) (form : Registration) (url no_invite_url : Bytes)
    (lawful : IsLawful db) where
  existing_account-IsAdmitted :
      (s s' : Site) (account : Account)
      → existing_account app env db form url no_invite_url s ≡ (next account, s')
      → IsAdmitted app db form s account app.config.registration_existing_player.require_invite
  unfolding existing_account
  existing_account-IsAdmitted s s' account h =
      let existing = app.config.registration_existing_player in
      let (_, e₁, h₁) =
        bind-next _ _ s s' account
          (refuse_if-IsQuiet (not existing.allow)
            (text "Registration from an existing account is not allowed.") url)
          h in
      let (invite, e₂, h₂) =
        bind-next _ _ s s' account
          (find_invite-IsQuiet db existing.require_invite form.invite_code no_invite_url) h₁ in
      let (details, e₃, h₃) =
        bind-next _ _ s s' account
          (accept-IsQuiet (validate_challenge app env form.username form.challenge_token)
            (challenge_message app) url)
          h₂ in
      let (_, e₄, h₄) =
        bind-next _ _ s s' account
          (accept-IsQuiet (validate_username app details.username)
            (with_error "Invalid username: %s") url)
          h₃ in
      let name_ok : validate_username app details.username ≡ ok tt =
        accept-next (validate_username app details.username) (with_error "Invalid username: %s") url
          tt s e₄ in
      let same : (details.username, details.uuid, invite) ≡ account =
        same_result _ account s s' h₄ in
      subst (λ a. IsAdmitted app db form s a existing.require_invite) same
        (record {
          valid = name_ok;
          invited = λ r.
              find_invite-next db existing.require_invite form.invite_code no_invite_url s s invite
                lawful e₂ r;
        })

  new_account-IsAdmitted :
      (s s' : Site) (account : Account)
      → validate_username app form.username ≡ ok tt
      → new_account app env db form url no_invite_url s ≡ (next account, s')
      → IsAdmitted app db form s account app.config.registration_new_player.require_invite
  unfolding new_account
  new_account-IsAdmitted s s' account named h =
      let new = app.config.registration_new_player in
      let (_, e₁, h₁) =
        bind-next _ _ s s' account
          (refuse_if-IsQuiet (not new.allow)
            (text "Registration without some existing account is not allowed.") url)
          h in
      let (invite, e₂, h₂) =
        bind-next _ _ s s' account
          (find_invite-IsQuiet db new.require_invite form.invite_code no_invite_url) h₁ in
      let (account_uuid, e₃, h₃) =
        bind-next _ _ s s' account (choose_uuid-IsQuiet app env form.uuid url) h₂ in
      let same : (form.username, account_uuid, invite) ≡ account = same_result _ account s s' h₃ in
      subst (λ a. IsAdmitted app db form s a new.require_invite) same
        (record {
          valid = named;
          invited = λ r.
              find_invite-next db new.require_invite form.invite_code no_invite_url s s invite
                lawful e₂ r;
        })

  pub find_account-IsAdmitted :
      (s s' : Site) (account : Account)
      → validate_username app form.username ≡ ok tt
      → find_account app env db form url no_invite_url s ≡ (next account, s')
      → IsAdmitted app db form s account (needs_invite app form)
  unfolding find_account
  find_account-IsAdmitted s s' account named h =
      let existing = existing_account app env db form url no_invite_url s in
      let new = new_account app env db form url no_invite_url s in
      let need = λ (b : Bool).
        if b
        then app.config.registration_existing_player.require_invite
        else app.config.registration_new_player.require_invite in
      elim (Bool-cases form.existing_player) [
        | inl y ↦ subst (IsAdmitted app db form s account) (sym (ap need y)) (
            existing_account-IsAdmitted s s' account
              (sym (ap (λ (b : Bool). if b then existing else new) y) ∙ h))
        | inr n ↦ subst (IsAdmitted app db form s account) (sym (ap need n)) (
            new_account-IsAdmitted s s' account named
              (sym (ap (λ (b : Bool). if b then existing else new) n) ∙ h))
      ]
