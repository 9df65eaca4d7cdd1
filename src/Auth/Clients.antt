-- ===== src/Auth/Clients.antt =====
-- The clients that `AuthAuthenticate` saves: their identifiers stay distinct, and the client of the
-- reply is one of them.
use drasl.Prelude.{
  ◌≡◌, ◌≢◌, refl, Bool, true, false, Option, none, some, List, [], ◌∷◌, ◌++◌, inl, inr, arith,
  Bytes, ◌==◌, All, Bool-cases, Option-cases, if◌then◌else◌,
}
use drasl.Errors.{Result, ok, Result-cases}
use drasl.App.{App, Env, random_hex}
use drasl.Model.Types.{User, Client}
use drasl.Database.Laws.{In, UniqueBy}
use drasl.Database.Keys.{UniqueBy-snoc, In-snoc}
use drasl.Auth.{touch_clients, choose_client, next_version, new_client}

abbrev uuid_of : Client → Bytes
uuid_of c = c.uuid

-- The versions are all that the loop changes.
All-touch_clients :
    (P : Bytes → Type 0) (multiple : Bool) (token : Bytes) (clients : List Client)
    → All (λ (c : Client). P c.uuid) clients
    → All (λ (c : Client). P c.uuid) (touch_clients multiple token clients).0
unfolding touch_clients
All-touch_clients P multiple token [] h = tt
All-touch_clients P multiple token (c ∷ clients) (h, hs) =
    elim (Bool-cases (c.client_token == token)) [
      | inl e ↦ rw e (h, hs)
      | inr e ↦ rw e (keep_P multiple, All-touch_clients P multiple token clients hs)
    ]
  where
    keep_P : (m : Bool) → P (uuid_of (if m then c else next_version c))
    keep_P true = h
    keep_P false = h

uuid-touched : (m : Bool) (c : Client) → uuid_of (if m then c else next_version c) ≡ c.uuid
uuid-touched true c = refl
uuid-touched false c = refl

UniqueBy-touch_clients :
    (multiple : Bool) (token : Bytes) (clients : List Client)
    → UniqueBy uuid_of clients
    → UniqueBy uuid_of (touch_clients multiple token clients).0
unfolding touch_clients
UniqueBy-touch_clients multiple token [] u = tt
UniqueBy-touch_clients multiple token (c ∷ clients) (u, us) =
    elim (Bool-cases (c.client_token == token)) [
      | inl e ↦ rw e (u, us)
      | inr e ↦ rw e (
        rw (uuid-touched multiple c) (All-touch_clients (λ k. k ≢ c.uuid) multiple token clients u),
        UniqueBy-touch_clients multiple token clients us,
      )
    ]

In-touch_clients :
    (multiple : Bool) (token : Bytes) (clients : List Client) (c : Client)
    → (touch_clients multiple token clients).1 ≡ some c
    → In c (touch_clients multiple token clients).0
unfolding touch_clients
In-touch_clients multiple token [] c h = cc
In-touch_clients multiple token (d ∷ clients) c h = elim (Bool-cases (d.client_token == token)) [
  | inl e ↦ let h' = rw e at h in rw e (inl (ground arith))
  | inr e ↦ let h' = rw e at h in rw e (inr (In-touch_clients multiple token clients c h'))
]

added :
    (xs : List Client) (x : Client)
    → UniqueBy uuid_of xs
    → All (λ (c : Client). c.uuid ≢ x.uuid) xs
    → UniqueBy uuid_of (xs ++ (x ∷ [])) × In x (xs ++ (x ∷ []))
added xs x u fresh = (UniqueBy-snoc uuid_of xs x u fresh, In-snoc xs x)

moved :
    (xs clients' : List Client) (x client : Client)
    → ◌≡◌ {A = Result (List Client × Client)} (ok (xs, x)) (ok (clients', client))
    → UniqueBy uuid_of xs × In x xs
    → UniqueBy uuid_of clients' × In client clients'
moved xs clients' x client e h =
    let e₁ : xs ≡ clients' = cc in let e₂ : x ≡ client = cc in rw (← e₁, ← e₂) h

-- With a fresh identifier for a new client, the clients to save have distinct identifiers, and the
-- client of the request is one of them.
pub choose_client-In :
    (app : App) (env : Env) (user : User) (clients clients' : List Client) (token : Option Bytes)
    (client : Client)
    → UniqueBy uuid_of clients
    → All (λ (c : Client). c.uuid ≢ env.new_uuid) clients
    → choose_client app env user clients token ≡ ok (clients', client)
    → UniqueBy uuid_of clients' × In client clients'
unfolding choose_client
choose_client-In app env user clients clients' none client u fresh h =
    elim (Result-cases (random_hex env 16)) [
      | inr (e, p) ↦ ground arith
      | inl (token, p) ↦
          moved _ clients' _ client (rw (p, choose_client) at h)
            (added clients (new_client env user token) u fresh)
    ]
choose_client-In app env user clients clients' (some token) client u fresh h =
    let multiple = app.config.allow_multiple_access_tokens in
    let u' = UniqueBy-touch_clients multiple token clients u in
    elim (Option-cases (touch_clients multiple token clients).1) [
      | inl p ↦ moved _ clients' _ client (rw (p, choose_client) at h) (
          added (touch_clients multiple token clients).0 (new_client env user token) u'
            (All-touch_clients (λ k. k ≢ env.new_uuid) multiple token clients fresh))
      | inr (c, p) ↦
          moved _ clients' c client (rw (p, choose_client) at h)
            (u', In-touch_clients multiple token clients c p)
    ]
