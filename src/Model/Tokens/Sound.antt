-- ===== src/Model/Tokens/Sound.antt =====
-- Which tokens `GetClient` accepts.
use drasl.Prelude.{ℕ, ◌≤◌, ◌≡◌, some, inl, inr, arith, Bytes, eq_iff}
use drasl.Errors.{ok, Result-cases}
use drasl.App.{App}
use drasl.Model.Types.{User, Client, TokenClaims, StaleTokenPolicy, stale_policy_deny}
use drasl.Model.Tokens.{get_client}
use drasl.Database.Tables.{Tables, Database}

-- The token is good for the client at the time, under the policy.
pub record IsGood (app : App) (db : Database) (now : ℕ) (token : Bytes) (policy : StaleTokenPolicy)
    (t : Tables) (c : Client) (u : User) (claims : TokenClaims) : Type 0 where
  pub parsed : app.jwt_parse now token ≡ ok claims
  pub loaded : db.first_client claims.subject t ≡ ok (c, u)
  pub subject : claims.subject ≡ c.uuid
  pub version : claims.version ≡ c.version
  pub fresh : policy ≡ stale_policy_deny → now ≤ claims.stale_at

module _ (app : App) (db : Database) (now : ℕ) (token : Bytes) (policy : StaleTokenPolicy)
    (t : Tables) (c : Client) (u : User) where
  -- A token that is accepted is good for the client.
  pub get_client-IsGood :
      get_client app db now token policy t ≡ some (c, u)
      → (claims : TokenClaims) × IsGood app db now token policy t c u claims
  unfolding get_client
  get_client-IsGood h = elim (Result-cases (app.jwt_parse now token)) [
    | inr (e, failed) ↦ cc (h, failed)
    | inl (claims, parsed) ↦ elim (Result-cases (db.first_client claims.subject t)) [
      | inr (e, failed) ↦ ground arith
      | inl ((c', u'), loaded) ↦ (claims, ground (arith, eq_iff claims.subject c'.uuid))
    ]
  ]

  -- A token that is good for a client is accepted.
  pub get_client-accepts :
      (claims : TokenClaims)
      → IsGood app db now token policy t c u claims
      → get_client app db now token policy t ≡ some (c, u)
  unfolding get_client
  get_client-accepts claims g = ground (arith, eq_iff claims.subject c.uuid)
