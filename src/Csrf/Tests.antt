-- ===== src/Csrf/Tests.antt =====
-- server/middleware/csrf.go on concrete requests.
use sdk_api.Base.{
  String, ◌≡◌, refl, ◌≢◌, ◌⊎◌, true, false, none, [], ◌∷◌, ◌==◌, nat_eq, string_eq, if◌then◌else◌,
}
use sdk_api.Base.Bytes.{Bytes, bytes_eq, codes, cut_suffix}
use sdk_api.Csrf.{
  CsrfConfig, Request, passes, forbidden, cookie_name, header_name, excludes, is_excluded_path,
  check_tokens, csrf,
}
use sdk_api.Csrf.Protection.{Exempt, csrf_protects}

abbrev config : CsrfConfig
config = record {
  cookie_name = "";
  header_name = "";
  same_site = [];
  secure = true;
  exclude_paths = codes "/hooks/*" ∷ [];
  json_check = false;
}

-- A request that sends the token `t` in the header.
abbrev post : (path : String) → Bytes → Request
post path t = record {
  path = codes path;
  csrf_skip = false;
  method = "POST";
  header = λ name. if name == "X-CSRF-Token" then t else [];
  cookie = λ name. codes "t";
}

csrf_tests :
    (csrf config none (post "/orders" (codes "t")) ≡ passes)
    × (csrf config none (post "/orders" (codes "u")) ≡ forbidden)
    × (csrf config none (post "/hooks/in" []) ≡ passes)
unfolding csrf is_excluded_path excludes check_tokens cut_suffix
csrf_tests = (refl, refl, refl)

passed_on : csrf config none (post "/orders" (codes "t")) ≢ forbidden
unfolding csrf is_excluded_path excludes check_tokens cut_suffix
passed_on e = cc

csrf_protects_example :
    Exempt config (post "/orders" (codes "t"))
    ⊎ (((post "/orders" (codes "t")).header (header_name config) ≢ [])
        × ((post "/orders" (codes "t")).header (header_name config)
            ≡ (post "/orders" (codes "t")).cookie (cookie_name config)))
csrf_protects_example = csrf_protects config none (post "/orders" (codes "t")) refl passed_on
