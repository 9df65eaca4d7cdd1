-- ===== src/Services/Names.antt =====
-- Changing a player's name.
use drasl.Prelude.{
  ◌≡◌, ◌⊎◌, refl, ap, ◌∙◌, true, false, some, inl, inr, arith, Bytes, codes, ◌==◌, eq_iff, any,
  Option-cases, Bool-cases,
}
use drasl.Errors.{
  Error, text, with_string, with_number, with_error, with_both, unique_failed, external,
  record_not_found, ok, err, Result-cases, is_not_found,
}
use drasl.Flow.{run}
use drasl.Http.{json, status_ok}
use drasl.App.{App, Env, CachedGet}
use drasl.Model.Types.{User, Client, stale_policy_allow}
use drasl.Model.Validate.{validate_player_name}
use drasl.Model.Tokens.{get_client}
use drasl.Database.Tables.{Tables, Database, by_player_name, matches, save_user, apply}
use drasl.Database.Laws.{IsLawful}
use drasl.Services.Profile.{ServicesProfile, get_services_profile}
use drasl.Services.{
  Call, bearer_token, with_bearer_authentication, services_profile, name_availability, rename_user,
  change_name, services_change_name, name_status,
}

-- What a change of name that is answered with a profile has done.
pub record IsRenamed (app : App) (env : Env) (db : Database) (cached_get : CachedGet) (req : Call)
    (player_name : Bytes) (t t' : Tables) (p : ServicesProfile) (token : Bytes) (c : Client)
    (u u' : User) : Type 0 where
  pub bearer : bearer_token req.authorization ≡ some token
  pub authenticated : get_client app db env.now token stale_policy_allow t ≡ some (c, u)
  pub valid : validate_player_name app player_name ≡ ok tt
  pub allowed : (u.player_name ≡ player_name) ⊎ (app.config.allow_changing_player_name ≡ true)
  pub same_user : u'.uuid ≡ u.uuid
  pub renamed : u'.player_name ≡ player_name
  pub after : t' ≡ apply (save_user u') t
  pub answer : get_services_profile app cached_get u' ≡ some p

rename_user-fields :
    (app : App) (env : Env) (u u' : User) (player_name : Bytes)
    → rename_user app env u player_name ≡ some u'
    → (u'.uuid ≡ u.uuid)
      × (u'.player_name ≡ player_name)
      × ((u.player_name ≡ player_name) ⊎ (app.config.allow_changing_player_name ≡ true))
unfolding rename_user
rename_user-fields app env u u' player_name h = (
  ground arith,
  ground (arith, eq_iff u.player_name player_name),
  elim (Bool-cases (u.player_name == player_name)) [
    | inl y ↦ inl ((eq_iff u.player_name player_name).0 y)
    | inr n ↦ inr (ground arith)
  ],
)

-- A profile in answer to a change of name is sent only to the bearer of an access token: the name is
-- valid, changing is allowed if the name is another one, and what was saved, and described by the
-- profile, is the token's user under that name.
pub services_change_name-IsRenamed :
    (app : App) (env : Env) (db : Database) (cached_get : CachedGet) (req : Call)
    (player_name : Bytes) (t t' : Tables) (p : ServicesProfile)
    → IsLawful db
    → run (services_change_name app env db cached_get req player_name) t
      ≡ (json status_ok (services_profile p), t')
    → (token : Bytes) × (c : Client) × (u : User) × (u' : User) × IsRenamed app env db cached_get
        req player_name t t' p token c u u'
unfolding services_change_name with_bearer_authentication change_name
services_change_name-IsRenamed app env db cached_get req player_name t t' p lawful h =
    elim (Option-cases (bearer_token req.authorization)) [
      | inl none' ↦ absurd (ground arith)
      | inr (token, b) ↦
          elim (Option-cases (get_client app db env.now token stale_policy_allow t)) [
            | inl g ↦ absurd (ground arith)
            | inr ((c, u), g) ↦ elim (Result-cases (validate_player_name app player_name)) [
              | inr (e, v) ↦ absurd (ground arith)
              | inl (_, v) ↦ elim (Option-cases (rename_user app env u player_name)) [
                | inl r ↦ absurd (ground arith)
                | inr (u', r) ↦ elim (Option-cases (db.exec (save_user u') t).0) [
                  | inr (e, x) ↦ absurd (ground arith)
                  | inl x ↦
                      let (same, renamed, allowed) =
                        rename_user-fields app env u u' player_name r in
                      let saved = lawful.exec-ok (save_user u') t x in
                      elim (Option-cases (get_services_profile app cached_get u')) [
                        | inl q ↦ absurd (ground arith)
                        | inr (p', q) ↦ (
                          token,
                          c,
                          u,
                          u',
                          record {
                            bearer = b;
                            authenticated = g;
                            valid = v;
                            allowed = allowed;
                            same_user = same;
                            renamed = renamed;
                            after = ground arith;
                            answer = ground arith;
                          },
                        )
                      ]
                ]
              ]
            ]
          ]
    ]

is_missing : (e : Error) → is_not_found e ≡ true → e ≡ record_not_found
is_missing record_not_found h = refl
is_missing (text _) h = cc
is_missing (with_string _ _) h = cc
is_missing (with_number _ _) h = cc
is_missing (with_error _ _) h = cc
is_missing (with_both _ _ _) h = cc
is_missing (unique_failed _) h = cc
is_missing (external _) h = cc

-- A name is called available only where names may be changed, the name is valid, and no stored user
-- has it, in whatever case.
pub name_status-available :
    (app : App) (db : Database) (path player_name : Bytes) (t : Tables)
    → IsLawful db
    → name_status app db path player_name t ≡ json status_ok (name_availability (codes "AVAILABLE"))
    → (app.config.allow_changing_player_name ≡ true)
      × (validate_player_name app player_name ≡ ok tt)
      × (any (matches (by_player_name player_name)) t.users ≡ false)
unfolding name_status
name_status-available app db path player_name t lawful h =
    elim (Result-cases (validate_player_name app player_name)) [
      | inr (e, v) ↦ absurd (ground arith)
      | inl (_, v) ↦ elim (Result-cases (db.first_user (by_player_name player_name) t)) [
        | inl (u, p) ↦ absurd (ground arith)
        | inr (e, p) ↦ (
          ground arith,
          v,
          lawful.first_user-not_found (by_player_name player_name) t
              (p ∙ ap err (is_missing e (ground arith))),
        )
      ]
    ]
