-- ===== src/Model/Tokens.antt =====
-- `MakeAccessToken` and `GetClient`: access tokens and the clients that they stand for.
pub mod Sound
use drasl.Prelude.{
  ℕ, ◌+◌, ◌-◌, ◌*◌, ◌%◌, ◌<◌, ◌≤◌, ◌≡◌, Bool, true, false, ◌&&◌, ◌||◌, not, Option, none, some, ltb,
  nat_eq, Bytes, ◌==◌, if◌then◌else◌,
}
use drasl.Errors.{Error, Result, ok, err}
use drasl.App.{App, Externals}
use drasl.Model.Types.{
  User, Client, TokenClaims, StaleTokenPolicy, stale_policy_allow, stale_policy_deny, second,
  distant_future,
}
use drasl.Database.Tables.{Tables, Database}

-- `jwt.NewNumericDate` cuts a time to whole seconds.
abbrev pub numeric_date : ℕ → ℕ
numeric_date t = t - t % second

-- Now and so many seconds, or the distant future if the setting is 0.
abbrev pub deadline : ℕ → ℕ → ℕ
deadline now sec = if ltb 0 sec then now + sec * second else distant_future

abbrev pub claims_of : App → ℕ → Client → TokenClaims
claims_of app now client = record {
  subject = client.uuid;
  issued_at = numeric_date now;
  expires_at = numeric_date (deadline now app.config.token_expire_sec);
  version = client.version;
  stale_at = numeric_date (deadline now app.config.token_stale_sec);
}

unfoldable pub make_access_token : App → ℕ → Client → Result Bytes
make_access_token app now client = app.jwt_sign (claims_of app now client)

abbrev denies : StaleTokenPolicy → Bool
denies stale_policy_allow = false
denies stale_policy_deny = true

-- The client of a token, with its user; every error counts as no client.
unfoldable pub get_client :
    App → Database → ℕ → Bytes → StaleTokenPolicy → Tables → Option (Client × User)
get_client app db now access_token stale_policy t = elim (app.jwt_parse now access_token) [
  | err _ ↦ none
  | ok claims ↦ elim (db.first_client claims.subject t) [
    | err _ ↦ none
    | ok (client, user) ↦
        if denies stale_policy && ltb claims.stale_at now
        then none
        else if not (claims.subject == client.uuid) || not (nat_eq claims.version client.version)
        then none
        else some (client, user)
  ]
]

-- What the program relies on in the token library: a token that was signed is parsed to its claims
-- until it expires, and is refused from then on.
pub record AreTokens (x : Externals) : Type 0 where
  pub parse-sign :
      (claims : TokenClaims) (token : Bytes) (now : ℕ)
      → x.jwt_sign claims ≡ ok token
      → now < claims.expires_at
      → x.jwt_parse now token ≡ ok claims
  pub parse-expired :
      (claims : TokenClaims) (token : Bytes) (now : ℕ)
      → x.jwt_sign claims ≡ ok token
      → claims.expires_at ≤ now
      → (e : Error) × (x.jwt_parse now token ≡ err e)
  -- What a token says does not change with time.
  pub parse_stable :
      (token : Bytes) (now now' : ℕ) (claims claims' : TokenClaims)
      → x.jwt_parse now token ≡ ok claims
      → x.jwt_parse now' token ≡ ok claims'
      → claims ≡ claims'
