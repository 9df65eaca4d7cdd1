-- ===== src/Injector/Domains.antt =====
-- Which domains authlib-injector may load skins from.
use drasl.Prelude.{◌≡◌, inl, inr, ◌||◌, List, [], ◌∷◌, arith, Bytes, ◌==◌, any, Bool-cases}
use drasl.Util.{contains}
use drasl.Util.Contains.{IsUnique, contains-append, append-IsUnique, contains_of_eq}
use drasl.App.{App}
use drasl.Config.Types.{FallbackApiServer}
use drasl.Injector.{add_skin_domain, add_skin_domains, add_servers, skin_domains_of}

add_skin_domain_lem :
    (xs : List Bytes) (x y : Bytes)
    → IsUnique xs
    → IsUnique (add_skin_domain xs x)
      × (contains (add_skin_domain xs x) y ≡ (contains xs y || x == y))
unfolding add_skin_domain
add_skin_domain_lem xs x y unique = elim (Bool-cases (contains xs x)) [
  | inl old ↦ rw old (unique, contains_of_eq xs x y old)
  | inr new ↦ rw new (append-IsUnique xs x unique new, contains-append xs x y)
]

add_skin_domains_lem :
    (xs more : List Bytes) (y : Bytes)
    → IsUnique xs
    → IsUnique (add_skin_domains xs more)
      × (contains (add_skin_domains xs more) y ≡ (contains xs y || any (λ x. x == y) more))
unfolding add_skin_domains
add_skin_domains_lem xs [] y unique = (unique, ground arith)
add_skin_domains_lem xs (x ∷ more) y unique =
    let (a, b) = add_skin_domain_lem xs x y unique in
    let (c, d) = add_skin_domains_lem (add_skin_domain xs x) more y a in (c, ground arith)

add_servers_lem :
    (xs : List Bytes) (servers : List FallbackApiServer) (y : Bytes)
    → IsUnique xs
    → IsUnique (add_servers xs servers)
      × (contains (add_servers xs servers) y ≡ (
          contains xs y
          || any (λ (s : FallbackApiServer). any (λ x. x == y) s.skin_domains) servers))
unfolding add_servers
add_servers_lem xs [] y unique = (unique, ground arith)
add_servers_lem xs (server ∷ servers) y unique =
    let (a, b) = add_skin_domains_lem xs server.skin_domains y unique in
    let (c, d) = add_servers_lem (add_skin_domains xs server.skin_domains) servers y a in
    (c, ground arith)

-- The domains have no duplicates, and a domain is among them exactly if it is the instance's own or
-- one of a fallback server.
pub skin_domains_of-contains :
    (app : App) (y : Bytes)
    → IsUnique (skin_domains_of app)
      × (contains (skin_domains_of app) y ≡ (
          app.config.domain == y
          || any
              (λ (s : FallbackApiServer). any (λ x. x == y) s.skin_domains)
              app.config.fallback_api_servers))
unfolding skin_domains_of contains
skin_domains_of-contains app y =
    let (a, b) =
      add_servers_lem (app.config.domain ∷ []) app.config.fallback_api_servers y (tt, tt) in
    (a, ground arith)
