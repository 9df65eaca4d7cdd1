-- ===== src/Auth/Issue.antt =====
-- The access token of a reply works: it is accepted until it is stale.
use drasl.Prelude.{
  ℕ, ◌<◌, ◌≤◌, ◌≡◌, ◌≢◌, refl, Bool, true, false, none, some, List, [], inl, inr, arith, Bytes,
  ◌==◌, eq_iff, All, keep,
}
use drasl.Errors.{ok, Result-cases}
use drasl.Flow.{next, done, run, Flow-cases}
use drasl.Http.{Reply, json, no_content, status_ok, status_no_content}
use drasl.Auth.{
  find_or_create_user, check_password, choose_client, auth_authenticate, auth_validate,
}
use drasl.Auth.Types.{AuthenticateRequest, AuthenticateResponse, TokenRequest}
use drasl.Model.Validate.{transient_login_eligible, make_transient_user}
use drasl.App.{App, Env}
use drasl.Model.Types.{User, Client, stale_policy_deny}
use drasl.Model.Tokens.{get_client, make_access_token, claims_of, numeric_date, deadline, AreTokens}
use drasl.Model.Tokens.Sound.{get_client-accepts}
use drasl.Database.Tables.{Tables, Database, by_username, save_user_and_clients, create_user}
use drasl.Database.Laws.{IsLawful, HasUniqueKeys, UniqueBy, In, Answers}
use drasl.Database.Rows.{UniqueBy-In, In-put_clients}
use drasl.Database.Keys.{UniqueBy-keep, All-keep}
use drasl.Auth.Clients.{choose_client-In}

-- The part of `AuthAuthenticate` that finds the user gives it, or ends without success.
found_user :
    (app : App) (env : Env) (db : Database) (username : Bytes) (transient : Bool) (t : Tables)
    (r : Reply AuthenticateResponse)
    → (find_or_create_user app env db username transient t).0 ≡ done r
    → (res : AuthenticateResponse) → r ≢ json status_ok res
unfolding find_or_create_user
found_user app env db username true t r h res = ground (
  arith,
  Result-cases (db.first_user (by_username username) t),
  Result-cases (make_transient_user app env username),
)
found_user app env db username false t r h res = ground arith

refused_password :
    (app : App) (user : User) (password : Bytes) (transient : Bool) (r : Reply AuthenticateResponse)
    → check_password app user password transient ≡ done r
    → (res : AuthenticateResponse) → r ≢ json status_ok res
unfolding check_password
refused_password app user password true r h res = ground arith
refused_password app user password false r h res =
    ground (arith, Result-cases (app.scrypt_key password user.password_salt))

authenticate-inverse :
    (app : App) (env : Env) (db : Database) (req : AuthenticateRequest) (t t' : Tables)
    (res : AuthenticateResponse)
    → run (auth_authenticate app env db (ok req)) t ≡ (json status_ok res, t')
    → (user : User) × (clients clients' : List Client) × (client : Client) × (t₁ : Tables)
      × (find_or_create_user app env db req.username (transient_login_eligible app req.username) t
          ≡ (next (user, clients), t₁))
      × (choose_client app env user clients req.client_token ≡ ok (clients', client))
      × ((db.exec (save_user_and_clients user clients') t₁).0 ≡ none)
      × (t' ≡ (db.exec (save_user_and_clients user clients') t₁).1)
      × (make_access_token app env.now client ≡ ok res.access_token)
      × (res.client_token ≡ client.client_token)
unfolding auth_authenticate
authenticate-inverse app env db req t t' res h =
    let transient = transient_login_eligible app req.username in
    let found = find_or_create_user app env db req.username transient t in
    elim (Flow-cases found.0) [
      | inr (r, e) ↦ absurd (found_user app env db req.username transient t r e res (ground arith))
      | inl ((user, clients), e) ↦
          let h₁ = rw e at h in
          elim (Flow-cases (check_password app user req.password transient)) [
            | inr (r, q) ↦
                let h₂ = rw q at h₁ in
                absurd (refused_password app user req.password transient r q res (ground arith))
            | inl (_, q) ↦
                let h₂ = rw q at h₁ in
                elim (Result-cases (choose_client app env user clients req.client_token)) [
                  | inr (x, p) ↦ let h₃ = rw p at h₂ in ground arith
                  | inl ((cs, c), p) ↦
                      let h₃ = rw p at h₂ in
                      (
                        user,
                        clients,
                        cs,
                        c,
                        found.1,
                        ground arith,
                        p,
                        ground arith,
                        ground arith,
                        ground arith,
                        ground arith,
                      )
                ]
          ]
    ]

-- The clients that come with the user have distinct identifiers, none of them the new one.
found-UniqueBy :
    (app : App) (env : Env) (db : Database) (username : Bytes) (transient : Bool) (t t₁ : Tables)
    (user : User) (clients : List Client)
    → IsLawful db
    → HasUniqueKeys t
    → All (λ (c : Client). c.uuid ≢ env.new_uuid) t.clients
    → find_or_create_user app env db username transient t ≡ (next (user, clients), t₁)
    → HasUniqueKeys t₁
      × UniqueBy (λ (c : Client). c.uuid) clients
      × All (λ (c : Client). c.uuid ≢ env.new_uuid) clients
unfolding find_or_create_user
found-UniqueBy app env db username transient t t₁ user clients lawful unique fresh h =
    elim (Result-cases (db.first_user (by_username username) t)) [
      | inr (e, p) ↦ elim (Result-cases (make_transient_user app env username)) [
        | inr (x, q) ↦ ground arith
        | inl (u, q) ↦
            let e₁ : clients ≡ [] = ground arith in
            let e₂ : t₁ ≡ (db.exec (create_user u) t).1 = ground arith in
            let e₃ : (db.exec (create_user u) t).0 ≡ none = ground arith in
            rw (e₁, e₂) (lawful.exec-HasUniqueKeys (create_user u) t unique e₃, tt, tt)
      ]
      | inl (u, p) ↦
          let e₁ : clients ≡ keep (λ c. c.user_uuid == u.uuid) t.clients =
            ground (arith, lawful.clients_of-lem u t) in
          let e₂ : t₁ ≡ t = ground arith in
          rw (e₁, e₂)
            (
              unique,
              UniqueBy-keep (λ (c : Client). c.uuid) _ t.clients unique.client_uuids,
              All-keep (λ (c : Client). c.uuid ≢ env.new_uuid) _ t.clients fresh,
            )
    ]

abbrev pub token_request : AuthenticateResponse → TokenRequest
token_request res = record { access_token = res.access_token; client_token = res.client_token }

-- A token that is accepted, with its client's own client token, passes.
pub validates :
    (app : App) (env : Env) (db : Database) (req : TokenRequest) (t : Tables) (c : Client)
    (u : User)
    → get_client app db env.now req.access_token stale_policy_deny t ≡ some (c, u)
    → req.client_token ≡ c.client_token
    → run (auth_validate app env db (ok req)) t ≡ (no_content status_no_content, t)
unfolding auth_validate
validates app env db req t c u accepted own = ground (arith, eq_iff c.client_token req.client_token)

module _ (app : App) (db : Database) (tokens : AreTokens app.externals) (lawful : IsLawful db)
    (answers : Answers db) where
  -- A token that was made for a stored client is accepted as that client's until it is stale.
  issued :
      (t : Tables) (client : Client) (now now' : ℕ) (token : Bytes)
      → HasUniqueKeys t
      → In client t.clients
      → make_access_token app now client ≡ ok token
      → now' < (claims_of app now client).expires_at
      → now' ≤ (claims_of app now client).stale_at
      → (u : User) × (get_client app db now' token stale_policy_deny t ≡ some (client, u))
  unfolding make_access_token
  issued t client now now' token unique member made live fresh =
      let claims = claims_of app now client in
      let (c, u, found) = answers.first_client_answers t client member in
      let (m, k, _) = lawful.first_client-ok client.uuid t c u found in
      let same : c ≡ client =
        UniqueBy-In (λ (x : Client). x.uuid) c client t.clients unique.client_uuids m member k in
      (
        u,
        get_client-accepts app db now' token stale_policy_deny t client u claims (record {
          parsed = tokens.parse-sign claims token now' made live;
          loaded = rw found (rw same);
          subject = refl;
          version = refl;
          fresh = λ _. fresh;
        }),
      )

  -- After a successful authentication, with an identifier for a new client that no client has,
  -- the access token and the client token of the reply pass `AuthValidate` until the token is
  -- stale or has expired; the lifetimes are those of the configuration.
  pub auth_authenticate-auth_validate :
      (env env' : Env) (req : AuthenticateRequest) (t t' : Tables) (res : AuthenticateResponse)
      → HasUniqueKeys t
      → All (λ (c : Client). c.uuid ≢ env.new_uuid) t.clients
      → run (auth_authenticate app env db (ok req)) t ≡ (json status_ok res, t')
      → env'.now < numeric_date (deadline env.now app.config.token_expire_sec)
      → env'.now ≤ numeric_date (deadline env.now app.config.token_stale_sec)
      → run (auth_validate app env' db (ok (token_request res))) t'
        ≡ (no_content status_no_content, t')
  auth_authenticate-auth_validate env env' req t t' res unique fresh h live not_stale =
      let (user, clients, cs, client, t₁, found, chosen, saved, after, made, own) =
        authenticate-inverse app env db req t t' res h in
      let (unique₁, distinct, none_new) =
        found-UniqueBy app env db _ _ t t₁ user clients lawful unique fresh found in
      let (distinct', member) =
        choose_client-In app env user clients cs req.client_token client distinct none_new chosen in
      let save = save_user_and_clients user cs in
      let stored : In client t'.clients =
        rw (after, lawful.exec-ok save t₁ saved)
          (In-put_clients cs t₁.clients client distinct' member) in
      let unique' : HasUniqueKeys t' = rw after (lawful.exec-HasUniqueKeys save t₁ unique₁ saved) in
      let (u, accepted) =
        issued t' client env.now env'.now res.access_token unique' stored made live not_stale in
      validates app env' db (token_request res) t' client u accepted own
