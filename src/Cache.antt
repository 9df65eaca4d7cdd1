-- ===== src/Cache.antt =====
-- `CachedGet` of common.go with its cache. The cache of the program is a library's, which may drop
-- any entry; what it still has is the list of URLs and responses.
pub mod Coherent
use drasl.Prelude.{
  ℕ, Bool, true, false, Option, none, some, List, [], ◌∷◌, Bytes, ◌==◌, ltb, if◌then◌else◌,
}
use drasl.Errors.{Result, ok, err}
use drasl.App.{Env, HttpResponse}

-- `RequestCache`, the latest entry first
abbrev pub RequestCache : Type 0
RequestCache = List (Bytes × HttpResponse)

-- `Get`
unfoldable pub find_response : Bytes → RequestCache → Option HttpResponse
find_response url [] = none
find_response url ((key, response) ∷ cache) =
    if key == url then some response else find_response url cache

-- `SetWithTTL`, for a time that is not 0
unfoldable pub store_response : ℕ → Bytes → HttpResponse → RequestCache → RequestCache
store_response ttl url response cache = if ltb 0 ttl then (url, response) ∷ cache else cache

-- A request to the server, whose response is kept
fetch : Env → Bytes → ℕ → RequestCache → Result HttpResponse × RequestCache
unfolding store_response
fetch env url ttl cache = elim (env.http_get url) [
  | err e ↦ (err e, cache)
  | ok response ↦ (ok response, store_response ttl url response cache)
]

unfoldable pub cached_get : Env → Bytes → ℕ → RequestCache → Result HttpResponse × RequestCache
unfolding fetch find_response
cached_get env url ttl cache =
    if ltb 0 ttl
    then elim (find_response url cache) [
      | some response ↦ (ok response, cache)
      | none ↦ fetch env url ttl cache
    ]
    else fetch env url ttl cache
