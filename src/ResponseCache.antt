-- ===== src/ResponseCache.antt =====
-- server/middleware/response_cache.go. The handler behind the middleware answers with a response or an
-- error, which is a parameter, and so are the JSON of a body and whether the cache takes a value.
pub mod Served
mod Tests
use sdk_api.Base.{
  ℕ, subst, zero, suc, ◌+◌, ◌-◌, ◌*◌, ◌≤◌, ◌<◌, ◌/◌, ◌%◌, ◌^◌, String, ◌≡◌, refl, sym, ap, ◌∙◌, ◌≢◌,
  ◌↔◌, ◌⊎◌, inl, inr, Bool, true, false, not, ◌&&◌, ◌||◌, Option, none, some, List, [], ◌∷◌, ◌++◌,
  map, arith, ltb, leb, nat_beq, nat_beq_iff, Eq, ◌==◌, ==_iff, nat_eq, string_eq, if◌then◌else◌,
  Bool-cases, Option-cases, is_some, length, get_elem?, set, take, length-append, length-set,
  get_elem?-append_last, get_elem?-append_left, get_elem?-set_ne, get_elem?-set_self, All, Map,
  lookup, insert, delete, lookup-insert, lookup-delete, contains, contains-cons_self,
  contains-cons_of_contains, contains-cons_cases, IsMap, retain, kept, insert-IsMap, delete-IsMap,
  lookup-retain, retain-IsMap,
}
use sdk_api.Jobs.Redis.{concat}

-- `responseCacheWriter` around a context; it is never set to be cached.
pub record ResponseCacheWriter : Type 0 where
  pub body : List String
  pub status : ℕ

-- The writer that `CacheResponse` makes.
abbrev pub new_writer : ResponseCacheWriter
new_writer = record { body = []; status = 0 }

-- `Send` and `Status`, as far as the writer is concerned.
abbrev pub send : String → ResponseCacheWriter → ResponseCacheWriter
send text w = record w { body = w.body ++ text ∷ [] }

abbrev pub set_status : ℕ → ResponseCacheWriter → ResponseCacheWriter
set_status status w = record w { status = status }

pub record Request : Type 0 where
  pub method : String
  pub path : String

pub record Response : Type 0 where
  pub status : ℕ
  pub body : String

-- The response of a value that is cached, and that of a cache that fails.
abbrev pub cached_response : String → Response
cached_response body = record { status = 200; body = body }

abbrev pub set_failed : Response
set_failed = record { status = 200; body = "{\"error\":\"cache set failed\"}" }

abbrev pub cache_key : Request → String
cache_key r = concat "rest:" (concat r.method (concat ":" r.path))

module _ (marshal : List String → String) (takes : String → Bool) where
  -- What is behind `c.Next()`, which runs on `c` and leaves the writer as it is.
  unfoldable pub store_response :
      ResponseCacheWriter
      → String
      → Map String String
      → Response
      → Map String String × Option Response
  store_response w key cc response =
      if leb 200 w.status && ltb w.status 300
      then if takes key
        then (insert key (marshal w.body) cc, some response)
        else (cc, some set_failed)
      else (cc, some response)

  -- `CacheResponse`: the cache, and the response, or `none` for an error.
  unfoldable pub cache_response :
      Map String String → Request → Option Response → Map String String × Option Response
  cache_response cc request next =
      let key = cache_key request in
      if not (request.method == "GET") then (cc, next) else elim (lookup key cc) [
        | some body ↦ (cc, some (cached_response body))
        | none ↦ elim next [
          | none ↦ (cc, none)
          | some response ↦ store_response new_writer key cc response
        ]
      ]

  -- Requests one after the other, each with the answer of the handler.
  unfoldable pub serve :
      Map String String
      → List (Request × Option Response)
      → Map String String × List (Option Response)
  serve cc [] = (cc, [])
  serve cc ((request, next) ∷ requests) =
      let first = cache_response cc request next in
      let rest = serve first.0 requests in (rest.0, first.1 ∷ rest.1)
