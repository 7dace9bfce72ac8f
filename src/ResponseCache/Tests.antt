-- ===== src/ResponseCache/Tests.antt =====
-- Runs of server/middleware/response_cache.go.
use sdk_api.Base.{
  String, ◌≡◌, refl, Bool, true, Option, some, List, [], ◌∷◌, nat_eq, string_eq, insert,
}
use sdk_api.ResponseCache.{
  new_writer, send, set_status, Request, Response, cache_key, store_response, serve,
}
use sdk_api.ResponseCache.Served.{serve_uncached}

abbrev no_text : List String → String
no_text parts = ""

abbrev takes_all : String → Bool
takes_all key = true

abbrev request : Request
request = record { method = "GET"; path = "/items" }

abbrev response : String → Option Response
response body = some (record { status = 200; body = body })

-- A writer that had been told the status and the body would be stored.
would_store :
    (store_response no_text takes_all
      (send "[]" (set_status 200 new_writer))
      (cache_key request)
      []
      (record { status = 200; body = "[]" })).0
    ≡ ("rest:GET:/items", "") ∷ []
unfolding store_response insert
would_store = refl

serve_uncached_example :
    serve no_text takes_all [] ((request, response "1") ∷ (request, response "2") ∷ [])
    ≡ ([], response "1" ∷ response "2" ∷ [])
serve_uncached_example =
    serve_uncached no_text takes_all ((request, response "1") ∷ (request, response "2") ∷ [])
