-- ===== src/Cache/Coherent.antt =====
-- The cache is invisible where the servers' answers do not change.
use drasl.Prelude.{
  ℕ, ◌≡◌, refl, sym, some, [], ◌∷◌, inl, inr, arith, Bytes, eq_iff, All, ltb, Bool-cases,
  Option-cases,
}
use drasl.Errors.{ok, Result-cases}
use drasl.App.{Env, HttpResponse}
use drasl.Cache.{RequestCache, find_response, store_response, fetch, cached_get}

-- Each entry is what the server answers.
abbrev pub IsCoherent : Env → RequestCache → Type 0
IsCoherent env cache =
    All (λ (entry : Bytes × HttpResponse). env.http_get entry.0 ≡ ok entry.1) cache

find_response-ok :
    (env : Env) (url : Bytes) (cache : RequestCache) (response : HttpResponse)
    → IsCoherent env cache
    → find_response url cache ≡ some response
    → env.http_get url ≡ ok response
unfolding find_response
find_response-ok env url [] response c h = cc
find_response-ok env url ((key, r) ∷ cache) response (e, c) h =
    ground (arith, eq_iff key url, find_response-ok env url cache response c)

fetch-IsCoherent :
    (env : Env) (url : Bytes) (ttl : ℕ) (cache : RequestCache)
    → IsCoherent env cache
    → ((fetch env url ttl cache).0 ≡ env.http_get url) × IsCoherent env (fetch env url ttl cache).1
unfolding fetch store_response
fetch-IsCoherent env url ttl cache c = elim (Result-cases (env.http_get url)) [
  | inr (e, p) ↦ rw (fetch, p) (refl, c)
  | inl (r, p) ↦ elim (Bool-cases (ltb 0 ttl)) [
    | inl kept ↦ rw (fetch, p, kept) (refl, (p, c))
    | inr not_kept ↦ rw (fetch, p, not_kept) (refl, c)
  ]
]

-- A request through a cache whose entries are what the servers answer is answered as a request to
-- the server itself, and it leaves such a cache.
pub cached_get-IsCoherent :
    (env : Env) (url : Bytes) (ttl : ℕ) (cache : RequestCache)
    → IsCoherent env cache
    → ((cached_get env url ttl cache).0 ≡ env.http_get url)
      × IsCoherent env (cached_get env url ttl cache).1
unfolding cached_get
cached_get-IsCoherent env url ttl cache c =
    let fetched = fetch-IsCoherent env url ttl cache c in
    elim (Bool-cases (ltb 0 ttl)) [
      | inr off ↦ rw (cached_get, off) fetched
      | inl on ↦ elim (Option-cases (find_response url cache)) [
        | inl missing ↦ rw (cached_get, on, missing) fetched
        | inr (r, found) ↦
            rw (cached_get, on, found) (sym (find_response-ok env url cache r c found), c)
      ]
    ]
