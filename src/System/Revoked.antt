-- ===== src/System/Revoked.antt =====
-- Old access tokens over any sequence of requests.
use drasl.Prelude.{
  ◌+◌, ℕ, ◌≤◌, ◌<◌, ◌≡◌, ◌≢◌, ◌⊎◌, ◌∙◌, ◌==◌, eq_iff, arith, All, Bool-cases, sym, inl, inr, none,
  some, List, [], ◌∷◌, Bytes,
}
use drasl.Errors.{ok}
use drasl.App.{Env}
use drasl.Model.Types.{User, Client, TokenClaims, StaleTokenPolicy}
use drasl.Database.Tables.{by_username, increment_versions, apply, bump, Tables}
use drasl.Database.Laws.{HasUniqueKeys, IsLawful, In}
use drasl.Textures.{World}
use drasl.Model.Tokens.{AreTokens, get_client}
use drasl.Database.Rows.{In-All, In-bump, All-In, UniqueBy-In}
use drasl.Auth.Types.{SignoutRequest}
use drasl.Auth.{auth_signout, next_version}
use drasl.Model.Tokens.Sound.{get_client-IsGood}
use drasl.Flow.{run}
use drasl.Http.{no_content, status_no_content}
use drasl.System.Keeps.Requests.{serve_keeps}
use drasl.Auth.Revoke.{signout-inverse, get_client-IsOutdated}
use drasl.System.Keeps.Clients.{OfClients}
use drasl.System.Keeps.Signins.{OfClients-IsKept, auth_authenticate-Keeps, auth_refresh-Keeps}
use drasl.System.{Request, signout, Server, serve, serve_all}

-- The client is another one, or has at least the version.
abbrev AtLeast : Bytes → ℕ → Client → Type 0
AtLeast uuid v c = (c.uuid ≢ uuid) ⊎ (v ≤ c.version)

AtLeast-next_version :
    (uuid : Bytes) (v : ℕ) (c : Client) → AtLeast uuid v c → AtLeast uuid v (next_version c)
AtLeast-next_version uuid v c (inl other) = inl other
AtLeast-next_version uuid v c (inr least) = inr (omega arith)

abbrev HasVersions : Bytes → ℕ → Tables → Type 0
HasVersions uuid v = OfClients (AtLeast uuid v) (AtLeast-next_version uuid v)

module _ (s : Server) (lawful : IsLawful s.db) (uuid : Bytes) (v : ℕ) where
  serve-HasVersions :
      (env : Env) (request : Request) (w : World)
      → env.new_uuid ≢ uuid
      → HasVersions uuid v w.tables
      → HasVersions uuid v (serve s env request w).tables
  serve-HasVersions env request w fresh versions =
      let raises = AtLeast-next_version uuid v in
      serve_keeps s env (HasVersions uuid v) (OfClients-IsKept s.db lawful (AtLeast uuid v) raises)
        (λ bound.
          auth_authenticate-Keeps s.db lawful (AtLeast uuid v) raises s.app env bound
            (λ c e. inl (λ k. fresh (sym e ∙ k))))
        (λ bound. auth_refresh-Keeps s.db lawful (AtLeast uuid v) raises s.app env bound) request w
        versions

  serve_all-HasVersions :
      (requests : List (Env × Request)) (w : World)
      → All (λ (r : Env × Request). r.0.new_uuid ≢ uuid) requests
      → HasVersions uuid v w.tables
      → HasVersions uuid v (serve_all s requests w).tables
  unfolding serve_all
  serve_all-HasVersions [] w _ versions = versions
  serve_all-HasVersions ((env, request) ∷ requests) w (fresh, more) versions =
      serve_all-HasVersions requests (serve s env request w) more
        (serve-HasVersions env request w fresh versions)

  -- A token for an earlier version than all clients with its identifier have is not accepted later.
  serve_all-outdated :
      (requests : List (Env × Request)) (w : World) (token : Bytes) (claims : TokenClaims)
      (now now' : ℕ) (policy : StaleTokenPolicy)
      → AreTokens s.app.externals
      → s.app.jwt_parse now token ≡ ok claims
      → claims.subject ≡ uuid
      → claims.version < v
      → All (λ (r : Env × Request). r.0.new_uuid ≢ uuid) requests
      → HasVersions uuid v w.tables
      → get_client s.app s.db now' token policy (serve_all s requests w).tables ≡ none
  serve_all-outdated requests w token claims now now' policy tokens parsed subject older fresh
        before =
      let t = (serve_all s requests w).tables in
      let after : HasVersions uuid v t = serve_all-HasVersions requests w fresh before in
      get_client-IsOutdated s.app s.db tokens lawful token now claims t parsed
        (λ c n k e. elim (All-In (AtLeast uuid v) c t.clients after n) [
          | inl other ↦ other (k ∙ subject)
          | inr least ↦ omega arith
        ])
        now' policy

-- With distinct keys a client's version is that of every row with its identifier.
unique-HasVersions :
    (client : Client) (t : Tables)
    → HasUniqueKeys t
    → In client t.clients
    → HasVersions client.uuid client.version t
unique-HasVersions client t unique m = In-All (AtLeast client.uuid client.version) t.clients λ c n.
    elim (Bool-cases (c.uuid == client.uuid)) [
      | inl same ↦
          let this : c ≡ client =
            UniqueBy-In (λ (x : Client). x.uuid) c client t.clients unique.client_uuids n m
              ((eq_iff c.uuid client.uuid).0 same) in
          inr (rw this (omega arith))
      | inr other ↦ inl (λ e. cc (other, (eq_iff c.uuid client.uuid).1 e))
    ]

bump-AtLeast :
    (uuid user_uuid : Bytes) (v : ℕ) (c : Client)
    → (c.uuid ≡ uuid → (c.version ≡ v) × (c.user_uuid ≡ user_uuid))
    → AtLeast uuid (v + 1) (bump user_uuid c)
bump-AtLeast uuid user_uuid v c own = elim (Bool-cases (c.uuid == uuid)) [
  | inl same ↦
      let (version, user) = own ((eq_iff c.uuid uuid).0 same) in
      inr (ground (arith, eq_iff c.user_uuid user_uuid))
  | inr other ↦ inl (λ e. ground (arith, eq_iff c.uuid uuid))
]

-- After the versions of a user's clients were raised, each of these has a higher version.
bumped-HasVersions :
    (client : Client) (t : Tables)
    → HasUniqueKeys t
    → In client t.clients
    → HasVersions client.uuid (client.version + 1) (apply (increment_versions client.user_uuid) t)
bumped-HasVersions client t unique m =
    In-All (AtLeast client.uuid (client.version + 1))
      (apply (increment_versions client.user_uuid) t).clients
      λ d n.
        let (c, n', e) = In-bump client.user_uuid d t.clients n in
        rw e (
          bump-AtLeast client.uuid client.user_uuid client.version c (λ k.
            let this : c ≡ client =
              UniqueBy-In (λ (x : Client). x.uuid) c client t.clients unique.client_uuids n' m k in
            (cc this, cc this)))

-- A token that was made for an earlier version of a stored client is accepted at no time and under
-- no policy, whatever requests have been served since, in whatever order, and whichever calls
-- failed, as long as no new client gets the identifier of that client.
pub serve_all_revoked :
    (s : Server) (requests : List (Env × Request)) (w : World) (client : Client) (token : Bytes)
    (claims : TokenClaims) (now now' : ℕ) (policy : StaleTokenPolicy)
    → AreTokens s.app.externals
    → IsLawful s.db
    → HasUniqueKeys w.tables
    → In client w.tables.clients
    → s.app.jwt_parse now token ≡ ok claims
    → claims.subject ≡ client.uuid
    → claims.version < client.version
    → All (λ (r : Env × Request). r.0.new_uuid ≢ client.uuid) requests
    → get_client s.app s.db now' token policy (serve_all s requests w).tables ≡ none
serve_all_revoked s requests w client token claims now now' policy tokens lawful unique m parsed
      subject older fresh =
    serve_all-outdated s lawful client.uuid client.version requests w token claims now now' policy
      tokens parsed subject older fresh (unique-HasVersions client w.tables unique m)

-- After a signout that succeeds, an access token of the user that was accepted before it, at
-- whatever time and under whatever policy, is accepted at no time and under no policy, whatever
-- requests have been served since, in whatever order, and whichever calls failed, as long as no new
-- client gets the identifier of the token's client.
pub serve_all_signed_out :
    (s : Server) (env : Env) (req : SignoutRequest) (requests : List (Env × Request)) (w : World)
    (user u : User) (client : Client) (token : Bytes) (now now' : ℕ)
    (policy policy' : StaleTokenPolicy)
    → AreTokens s.app.externals
    → IsLawful s.db
    → HasUniqueKeys w.tables
    → (run (auth_signout s.app env s.db (ok req)) w.tables).0 ≡ no_content status_no_content
    → s.db.first_user (by_username req.username) w.tables ≡ ok user
    → get_client s.app s.db now token policy w.tables ≡ some (client, u)
    → client.user_uuid ≡ user.uuid
    → All (λ (r : Env × Request). r.0.new_uuid ≢ client.uuid) requests
    → get_client s.app s.db now' token policy'
        (serve_all s requests (serve s env (signout (ok req)) w)).tables
      ≡ none
unfolding serve
serve_all_signed_out s env req requests w user u client token now now' policy policy' tokens lawful
      unique success loaded accepted own fresh =
    let t' = (run (auth_signout s.app env s.db (ok req)) w.tables).1 in
    let (user', found, _, after) =
      signout-inverse s.app s.db tokens lawful env req w.tables t' (λ i. (success i, t')) in
    let (claims, g) = get_client-IsGood s.app s.db now token policy w.tables client u accepted in
    let (member, _, _) = lawful.first_client-ok claims.subject w.tables client u g.loaded in
    let same : user'.uuid ≡ client.user_uuid = cc (found, loaded, own) in
    let raised : HasVersions client.uuid (client.version + 1) t' =
      rw (after, same) (bumped-HasVersions client w.tables unique member) in
    serve_all-outdated s lawful client.uuid (client.version + 1) requests
      (serve s env (signout (ok req)) w) token claims now now' policy' tokens g.parsed g.subject
      (omega arith) fresh raised
