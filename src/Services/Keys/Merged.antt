-- ===== src/Services/Keys/Merged.antt =====
-- Which keys `setup` collects.
use drasl.Prelude.{
  ◌≡◌, inl, inr, Bool, ◌||◌, false, Option, none, some, List, [], ◌∷◌, arith, Bytes, ◌==◌, any,
  Bool-cases,
}
use drasl.Util.{contains}
use drasl.Util.Contains.{
  IsUnique, contains_public_key-contains, contains-append, append-IsUnique, contains_of_eq,
}
use drasl.Errors.{ok, err, Result-cases}
use drasl.App.{App, Env}
use drasl.Config.Types.{FallbackApiServer}
use drasl.Services.Keys.{
  KeyFormats, PublicKeysResponse, Keys, serialized_key_to_public_key, add_key, add_keys, fetch_keys,
  add_response, collect_keys, setup_keys,
}

module _ (app : App) (env : Env) (formats : KeyFormats) (k : Bytes) where
  -- A text is a serialized form of the key.
  abbrev pub serializes : Bytes → Bool
  serializes serialized = elim (serialized_key_to_public_key app formats serialized) [
    | err _ ↦ false
    | ok key ↦ key == k
  ]

  -- A response offers the key in one of its lists.
  abbrev pub offers : (PublicKeysResponse → List Bytes) → Option PublicKeysResponse → Bool
  offers list none = false
  offers list (some res) = any serializes (list res)

  -- A fallback server answers with the key.
  abbrev pub server_offers : (PublicKeysResponse → List Bytes) → FallbackApiServer → Bool
  server_offers list server = elim (fetch_keys app env formats server) [
    | err _ ↦ false
    | ok res ↦ offers list res
  ]

  contains-add_key :
      (keys : List Bytes) (serialized : Bytes)
      → contains (add_key app formats keys serialized) k
        ≡ (contains keys k || serializes serialized)
  unfolding add_key
  contains-add_key keys serialized =
      elim (Result-cases (serialized_key_to_public_key app formats serialized)) [
        | inr (e, p) ↦ ground arith
        | inl (key, p) ↦
            let same = contains_public_key-contains keys key in
            elim (Bool-cases (contains keys key)) [
              | inr new ↦ ground (arith, contains-append keys key k)
              | inl old ↦ ground (arith, contains_of_eq keys key k)
            ]
      ]

  contains-add_keys :
      (keys serialized : List Bytes)
      → contains (add_keys app formats keys serialized) k
        ≡ (contains keys k || any serializes serialized)
  unfolding add_keys
  contains-add_keys keys [] = ground arith
  contains-add_keys keys (s ∷ serialized) =
      ground
        (arith, contains-add_keys (add_key app formats keys s) serialized, contains-add_key keys s)

  contains-collect_keys :
      (servers : List FallbackApiServer) (keys keys' : Keys)
      → collect_keys app env formats servers keys ≡ ok keys'
      → (contains keys'.0 k
          ≡ (contains keys.0 k || any (server_offers (λ r. r.profile_property_keys)) servers))
        × (contains keys'.1 k
            ≡ (contains keys.1 k || any (server_offers (λ r. r.player_certificate_keys)) servers))
  unfolding collect_keys add_response
  contains-collect_keys [] keys keys' h = (ground arith, ground arith)
  contains-collect_keys (server ∷ servers) keys keys' h =
      elim (Result-cases (fetch_keys app env formats server)) [
        | inr (e, p) ↦ absurd (ground arith)
        | inl (none, p) ↦
            let (a, b) = contains-collect_keys servers keys keys' (ground arith) in
            (ground arith, ground arith)
        | inl (some res, p) ↦
            let (a, b) =
              contains-collect_keys servers (add_response app formats keys (some res)) keys'
                (ground arith) in
            let c = contains-add_keys keys.0 res.profile_property_keys in
            let d = contains-add_keys keys.1 res.player_certificate_keys in
            (ground arith, ground arith)
      ]

module _ (app : App) (env : Env) (formats : KeyFormats) where
  add_key-IsUnique :
      (keys : List Bytes) (serialized : Bytes)
      → IsUnique keys
      → IsUnique (add_key app formats keys serialized)
  unfolding add_key
  add_key-IsUnique keys serialized unique =
      elim (Result-cases (serialized_key_to_public_key app formats serialized)) [
        | inr (e, p) ↦ rw (add_key, p) unique
        | inl (key, p) ↦
            let same = contains_public_key-contains keys key in
            elim (Bool-cases (contains keys key)) [
              | inl old ↦ rw (add_key, p) (rw (same, old) unique)
              | inr new ↦ rw (add_key, p) (rw (same, new) (append-IsUnique keys key unique new))
            ]
      ]

  add_keys-IsUnique :
      (keys serialized : List Bytes)
      → IsUnique keys
      → IsUnique (add_keys app formats keys serialized)
  unfolding add_keys
  add_keys-IsUnique keys [] unique = unique
  add_keys-IsUnique keys (s ∷ serialized) unique =
      add_keys-IsUnique (add_key app formats keys s) serialized (add_key-IsUnique keys s unique)

  collect_keys-IsUnique :
      (servers : List FallbackApiServer) (keys keys' : Keys)
      → IsUnique keys.0
      → IsUnique keys.1
      → collect_keys app env formats servers keys ≡ ok keys'
      → IsUnique keys'.0 × IsUnique keys'.1
  unfolding collect_keys add_response
  collect_keys-IsUnique [] keys keys' a b h = let e : keys ≡ keys' = cc h in rw (← e) (a, b)
  collect_keys-IsUnique (server ∷ servers) keys keys' a b h =
      elim (Result-cases (fetch_keys app env formats server)) [
        | inr (e, p) ↦ absurd (ground arith)
        | inl (none, p) ↦ collect_keys-IsUnique servers keys keys' a b (ground arith)
        | inl (some res, p) ↦
            collect_keys-IsUnique servers (add_response app formats keys (some res)) keys'
              (add_keys-IsUnique keys.0 res.profile_property_keys a)
              (add_keys-IsUnique keys.1 res.player_certificate_keys b) (ground arith)
      ]

-- The keys that a start of the server collects have no duplicates. A key is among those for profile
-- properties exactly if it is the instance's own or some fallback server's answer offers it for
-- profile properties, and so for certificates.
pub setup_keys-contains :
    (app : App) (env : Env) (formats : KeyFormats) (own k : Bytes) (keys : Keys)
    → setup_keys app env formats own ≡ ok keys
    → IsUnique keys.0
      × IsUnique keys.1
      × (contains keys.0 k ≡ (
          own == k
          || any
              (server_offers app env formats k (λ r. r.profile_property_keys))
              app.config.fallback_api_servers))
      × (contains keys.1 k ≡ (
          own == k
          || any
              (server_offers app env formats k (λ r. r.player_certificate_keys))
              app.config.fallback_api_servers))
unfolding setup_keys contains
setup_keys-contains app env formats own k keys h =
    let servers = app.config.fallback_api_servers in
    let (a, b) = contains-collect_keys app env formats k servers (own ∷ [], own ∷ []) keys h in
    let (c, d) =
      collect_keys-IsUnique app env formats servers (own ∷ [], own ∷ []) keys (tt, tt) (tt, tt) h in
    (c, d, ground arith, ground arith)
