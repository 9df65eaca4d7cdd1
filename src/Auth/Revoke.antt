-- ===== src/Auth/Revoke.antt =====
-- Which access tokens stop working: after a refresh the old one, and after a signout or an
-- invalidation every token of the user.
use drasl.Prelude.{
  ℕ, ◌≡◌, ◌≢◌, sym, subst, ◌∙◌, none, some, inl, inr, arith, Bytes, eq_iff, Option-cases,
}
use drasl.Errors.{ok, Result-cases}
use drasl.Flow.{run}
use drasl.Http.{json, no_content, status_ok, status_no_content}
use drasl.App.{App, Env}
use drasl.Model.Types.{User, Client, TokenClaims, StaleTokenPolicy, stale_policy_allow}
use drasl.Model.Tokens.{get_client, AreTokens}
use drasl.Model.Tokens.Sound.{get_client-IsGood}
use drasl.Database.Tables.{
  Tables, Database, by_username, save_client, increment_versions, apply, bump,
}
use drasl.Database.Laws.{IsLawful, HasUniqueKeys, In}
use drasl.Database.Rows.{UniqueBy-In, In-put_client, In-bump}
use drasl.Auth.{auth_refresh, auth_signout, auth_invalidate, next_version}
use drasl.Auth.Types.{RefreshRequest, RefreshResponse, TokenRequest, SignoutRequest}

-- No client of the tables has the version that the token was made for.
abbrev pub IsOutdated : TokenClaims → Tables → Type 0
IsOutdated claims t =
    (c : Client) → In c t.clients → c.uuid ≡ claims.subject → c.version ≢ claims.version

raised : (c d : Client) (v : ℕ) → d ≡ next_version c → v ≡ c.version → d.version ≢ v
raised c d v e same = ground arith

bump_keeps_uuid : (user_uuid : Bytes) (c d : Client) → d ≡ bump user_uuid c → c.uuid ≡ d.uuid
bump_keeps_uuid user_uuid c d e = ground arith

bump_raises :
    (c c' d : Client) (v : ℕ) → d ≡ bump c.user_uuid c' → c' ≡ c → v ≡ c.version → d.version ≢ v
bump_raises c c' d v e same version = ground (arith, eq_iff c'.user_uuid c.user_uuid)

module _ (app : App) (db : Database) (tokens : AreTokens app.externals) (lawful : IsLawful db) where
  pub get_client-IsOutdated :
      (token : Bytes) (now : ℕ) (claims : TokenClaims) (t : Tables)
      → app.jwt_parse now token ≡ ok claims
      → IsOutdated claims t
      → (now' : ℕ) (policy : StaleTokenPolicy) → get_client app db now' token policy t ≡ none
  get_client-IsOutdated token now claims t parsed old now' policy =
      elim (Option-cases (get_client app db now' token policy t)) [
        | inl e ↦ e
        | inr ((c, u), e) ↦
            let (claims', g) = get_client-IsGood app db now' token policy t c u e in
            let same : claims ≡ claims' =
              tokens.parse_stable token now now' claims claims' parsed g.parsed in
            let (m, k, _) = lawful.first_client-ok claims'.subject t c u g.loaded in
            absurd (old c m (cc (k, same)) (cc (g.version, same)))
      ]

  module _ (env : Env) (req : RefreshRequest) (t t' : Tables) (res : RefreshResponse) where
    -- What a refresh that succeeds has done.
    refresh-inverse :
        run (auth_refresh app env db (ok req)) t ≡ (json status_ok res, t')
        → (c : Client) × (u : User) × (get_client app db env.now req.access_token stale_policy_allow
              t
            ≡ some (c, u))
          × (t' ≡ apply (save_client (next_version c)) t)
    unfolding auth_refresh
    refresh-inverse h =
        elim (Option-cases (get_client app db env.now req.access_token stale_policy_allow t)) [
          | inl e ↦ ground arith
          | inr ((c, u), e) ↦
              (c, u, e, ground (arith, lawful.exec-ok (save_client (next_version c)) t))
        ]

    -- After a refresh that succeeds, the access token of the request is accepted at no time and
    -- under no policy.
    pub auth_refresh_revokes :
        HasUniqueKeys t
        → run (auth_refresh app env db (ok req)) t ≡ (json status_ok res, t')
        → (now : ℕ) (policy : StaleTokenPolicy)
        → get_client app db now req.access_token policy t' ≡ none
    auth_refresh_revokes unique h now policy =
        let (c, u, found, after) = refresh-inverse h in
        let (claims, g) =
          get_client-IsGood app db env.now req.access_token stale_policy_allow t c u found in
        get_client-IsOutdated req.access_token env.now claims t' g.parsed
          (subst (IsOutdated claims) (sym after) (λ d m k.
            elim (In-put_client (next_version c) d t.clients unique.client_uuids m) [
              | inl e ↦ raised c d claims.version e g.version
              | inr (ne, _) ↦ absurd (ne (k ∙ g.subject))
            ]))
          now policy

  module _ (token : Bytes) (now : ℕ) (policy : StaleTokenPolicy) (t : Tables) (c : Client)
      (u : User) where
    -- Raising the versions of a user's clients makes their tokens unusable.
    increment_versions_revokes :
        HasUniqueKeys t
        → get_client app db now token policy t ≡ some (c, u)
        → (now' : ℕ) (policy' : StaleTokenPolicy)
        → get_client app db now' token policy' (apply (increment_versions c.user_uuid) t) ≡ none
    increment_versions_revokes unique found =
        let (claims, g) = get_client-IsGood app db now token policy t c u found in
        let (member, _, _) = lawful.first_client-ok claims.subject t c u g.loaded in
        get_client-IsOutdated token now claims (apply (increment_versions c.user_uuid) t) g.parsed
          λ d m k.
            let (c', n, e) = In-bump c.user_uuid d t.clients m in
            let same : c' ≡ c =
              UniqueBy-In (λ (x : Client). x.uuid) c' c t.clients unique.client_uuids n member
                (bump_keeps_uuid c.user_uuid c' d e ∙ k ∙ g.subject) in
            bump_raises c c' d claims.version e same g.version

  module _ (env : Env) (req : SignoutRequest) (t t' : Tables) where
    -- What a signout that succeeds has done.
    pub signout-inverse :
        run (auth_signout app env db (ok req)) t ≡ (no_content status_no_content, t')
        → (user : User) × (db.first_user (by_username req.username) t ≡ ok user)
          × (app.scrypt_key req.password user.password_salt ≡ ok user.password_hash)
          × (t' ≡ apply (increment_versions user.uuid) t)
    unfolding auth_signout
    signout-inverse h = elim (Result-cases (db.first_user (by_username req.username) t)) [
      | inr (e, p) ↦ ground arith
      | inl (user, p) ↦ elim (Result-cases (app.scrypt_key req.password user.password_salt)) [
        | inr (e, q) ↦ ground arith
        | inl (hash, q) ↦ (
          user,
          p,
          ground (arith, eq_iff hash user.password_hash),
          ground (arith, lawful.exec-ok (increment_versions user.uuid) t),
        )
      ]
    ]

    -- A signout that succeeds was given the password of the user with that name, and an access
    -- token of that user that was accepted before, at whatever time and under whatever policy, is
    -- accepted no more.
    pub auth_signout_revokes :
        HasUniqueKeys t
        → run (auth_signout app env db (ok req)) t ≡ (no_content status_no_content, t')
        → (user : User) → db.first_user (by_username req.username) t ≡ ok user
        → (token : Bytes) (now now' : ℕ) (policy policy' : StaleTokenPolicy) (c : Client) (u : User)
        → get_client app db now token policy t ≡ some (c, u)
        → c.user_uuid ≡ user.uuid
        → (app.scrypt_key req.password user.password_salt ≡ ok user.password_hash)
          × (get_client app db now' token policy' t' ≡ none)
    auth_signout_revokes unique h user loaded token now now' policy policy' c u accepted own =
        let (user', found, password, after) = signout-inverse h in
        let same : user' ≡ user = cc (found, loaded) in
        (
          rw (← same) password,
          rw (after, same, ← own)
              (increment_versions_revokes token now policy t c u unique accepted now' policy'),
        )

  module _ (env : Env) (req : TokenRequest) (t t' : Tables) where
    invalidate-inverse :
        run (auth_invalidate app env db (ok req)) t ≡ (no_content status_no_content, t')
        → (c : Client) × (u : User) × (get_client app db env.now req.access_token stale_policy_allow
              t
            ≡ some (c, u))
          × (c.client_token ≡ req.client_token)
          × (t' ≡ apply (increment_versions u.uuid) t)
    unfolding auth_invalidate
    invalidate-inverse h =
        elim (Option-cases (get_client app db env.now req.access_token stale_policy_allow t)) [
          | inl e ↦ ground arith
          | inr ((c, u), e) ↦ (
            c,
            u,
            e,
            ground (arith, eq_iff c.client_token req.client_token),
            ground (arith, lawful.exec-ok (increment_versions u.uuid) t),
          )
        ]

    -- An invalidation that succeeds was given an access token of a client with its own client
    -- token, and an access token of that client's user that was accepted before, at whatever time
    -- and under whatever policy, is accepted no more.
    pub auth_invalidate_revokes :
        HasUniqueKeys t
        → run (auth_invalidate app env db (ok req)) t ≡ (no_content status_no_content, t')
        → (c : Client) (u : User)
        → get_client app db env.now req.access_token stale_policy_allow t ≡ some (c, u)
        → (token : Bytes) (now now' : ℕ) (policy policy' : StaleTokenPolicy) (c' : Client)
          (u' : User)
        → get_client app db now token policy t ≡ some (c', u')
        → c'.user_uuid ≡ u.uuid
        → (c.client_token ≡ req.client_token) × (get_client app db now' token policy' t' ≡ none)
    auth_invalidate_revokes unique h c u loaded token now now' policy policy' c' u' accepted own =
        let (c₁, u₁, found, own_token, after) = invalidate-inverse h in
        let same_client : c₁ ≡ c = cc (found, loaded) in
        let same_user : u₁ ≡ u = cc (found, loaded) in
        (
          rw (← same_client) own_token,
          rw (after, same_user, ← own)
              (increment_versions_revokes token now policy t c' u' unique accepted now' policy'),
        )
