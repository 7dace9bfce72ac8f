-- ===== src/Csrf.antt =====
-- server/middleware/csrf.go: the CSRF middleware up to `c.Next()`. A request is what the middleware
-- reads of it, and the random token is a parameter, missing where the generator fails.
pub mod Protection
mod Tests
use sdk_api.Base.{
  ℕ, subst, zero, suc, ◌+◌, ◌-◌, ◌*◌, ◌≤◌, ◌<◌, ◌/◌, ◌%◌, String, ◌≡◌, refl, sym, ap, ◌∙◌, ◌≢◌, ◌↔◌,
  ◌⊎◌, inl, inr, Bool, true, false, not, ◌&&◌, ◌||◌, Option, none, some, List, [], ◌∷◌, ◌++◌, map,
  arith, ltb, leb, nat_beq, nat_beq_iff, Eq, ◌==◌, ==_iff, nat_eq, string_eq, if◌then◌else◌,
  Bool-cases, Option-cases, is_some, length, get_elem?, set, take, length-append, length-set,
  get_elem?-append_last, get_elem?-append_left, get_elem?-set_ne, get_elem?-set_self, All, Map,
  lookup, insert, delete, lookup-insert, lookup-delete, contains, contains-cons_self,
  contains-cons_of_contains, contains-cons_cases, IsMap, retain, kept, insert-IsMap, delete-IsMap,
  lookup-retain, retain-IsMap,
}
use sdk_api.Base.Bytes.{Bytes, bytes_eq, codes, is_prefix, cut_suffix}

pub record CsrfConfig : Type 0 where
  pub cookie_name : String
  pub header_name : String
  pub same_site : Bytes
  pub secure : Bool
  pub exclude_paths : List Bytes
  pub json_check : Bool

-- `header` and `cookie` read a header and a cookie by its name, empty where there is none.
pub record Request : Type 0 where
  pub path : Bytes
  pub csrf_skip : Bool
  pub method : String
  pub header : String → Bytes
  pub cookie : String → Bytes

pub record Cookie : Type 0 where
  pub name : String
  pub value : Bytes
  pub secure : Bool
  pub same_site : String

pub data Answer : Type 0 where
  passes forbidden no_token : Answer
  passes_with : Cookie → Answer

abbrev pub cookie_name : CsrfConfig → String
cookie_name cfg = if cfg.cookie_name == "" then "csrf_token" else cfg.cookie_name

abbrev pub header_name : CsrfConfig → String
header_name cfg = if cfg.header_name == "" then "X-CSRF-Token" else cfg.header_name

-- strings.ToLower of an ASCII letter.
abbrev to_lower : ℕ → ℕ
to_lower c = if leb 65 c && leb c 90 then c + 32 else c

-- `parseSameSite`.
unfoldable pub parse_same_site : Bytes → String
parse_same_site s =
    let lower = map to_lower s in
    if lower == codes "strict"
    then "Strict"
    else if lower == codes "lax"
    then "Lax"
    else if lower == codes "none"
    then "None"
    else "Lax"

-- `isJSONContentType`.
abbrev pub is_json_content_type : Request → Bool
is_json_content_type req = is_prefix (codes "application/json") (req.header "Content-Type")

-- One entry of the list: a path, or all that begins with what stands before `/*`.
unfoldable pub excludes : Bytes → Bytes → Bool
excludes [] path = false
excludes (c ∷ ep) path = elim (cut_suffix (codes "/*") (c ∷ ep)) [
  | some before ↦ is_prefix before path
  | none ↦ (c ∷ ep) == path
]

-- `isExcludedPath`.
unfoldable pub is_excluded_path : Bytes → List Bytes → Bool
is_excluded_path path [] = false
is_excluded_path path (ep ∷ eps) = if excludes ep path then true else is_excluded_path path eps

abbrev pub is_safe_method : String → Bool
is_safe_method m = m == "GET" || m == "HEAD" || m == "OPTIONS"

-- A safe request is given a new token.
unfoldable pub give_token : CsrfConfig → Option Bytes → Answer
give_token cfg none = no_token
give_token cfg (some token) = passes_with (record {
  name = cookie_name cfg;
  value = token;
  secure = cfg.secure;
  same_site = parse_same_site cfg.same_site;
})

-- The tokens of the header and of the cookie.
unfoldable pub check_tokens : Bytes → Bytes → Answer
check_tokens header_token cookie_token =
    if header_token == [] || cookie_token == [] || not (header_token == cookie_token)
    then forbidden
    else passes

-- `CSRF`.
unfoldable pub csrf : CsrfConfig → Option Bytes → Request → Answer
csrf cfg token req =
    if is_excluded_path req.path cfg.exclude_paths || req.csrf_skip
    then passes
    else if is_safe_method req.method
    then give_token cfg token
    else if cfg.json_check && is_json_content_type req
    then passes
    else check_tokens (req.header (header_name cfg)) (req.cookie (cookie_name cfg))
