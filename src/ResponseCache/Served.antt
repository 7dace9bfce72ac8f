-- ===== src/ResponseCache/Served.antt =====
-- server/middleware/response_cache.go: what the cache comes to hold.
use sdk_api.Base.{
  String, ◌≡◌, refl, Bool, Option, none, some, List, [], ◌∷◌, map, arith, nat_eq, string_eq, lookup,
}
use sdk_api.ResponseCache.{Request, Response, store_response, cache_response, serve}

module _ (marshal : List String → String) (takes : String → Bool) where
  cache_response-empty :
      (request : Request) (next : Option Response)
      → cache_response marshal takes [] request next ≡ ([], next)
  unfolding cache_response store_response lookup
  cache_response-empty request none = ground arith
  cache_response-empty request (some response) = ground arith

  -- From an empty cache, whatever requests are served, the cache stays empty and every response is
  -- that of the handler: nothing is ever cached, since the writer that records the response is not
  -- the one that the handler writes to.
  pub serve_uncached :
      (requests : List (Request × Option Response))
      → serve marshal takes [] requests ≡ ([], map (λ r. r.1) requests)
  unfolding serve
  serve_uncached [] = refl
  serve_uncached ((request, next) ∷ requests) =
      rw (cache_response-empty request next, serve_uncached requests) refl
