-- ===== src/Ssrf.antt =====
-- server/middleware/ssrf.go. An address is its number; url.Parse, net.ParseIP, filepath.Clean and the
-- resolver are parameters, and so is whether http.NewRequestWithContext makes a request of a URL. The
-- HTTP client that sends the request is left out.
pub mod Ranges
pub mod Guard
mod Tests
use sdk_api.Base.{
  ℕ, subst, zero, suc, ◌+◌, ◌-◌, ◌*◌, ◌≤◌, ◌<◌, ◌/◌, ◌%◌, ◌^◌, String, ◌≡◌, refl, sym, ap, ◌∙◌, ◌≢◌,
  ◌↔◌, ◌⊎◌, inl, inr, Bool, true, false, not, ◌&&◌, ◌||◌, Option, none, some, List, [], ◌∷◌, ◌++◌,
  map, arith, ltb, leb, nat_beq, nat_beq_iff, Eq, ◌==◌, ==_iff, nat_eq, string_eq, if◌then◌else◌,
  Bool-cases, Option-cases, is_some, length, get_elem?, set, take, length-append, length-set,
  get_elem?-append_last, get_elem?-append_left, get_elem?-set_ne, get_elem?-set_self, All, Map,
  lookup, insert, delete, lookup-insert, lookup-delete, contains, contains-cons_self,
  contains-cons_of_contains, contains-cons_cases, IsMap, retain, kept, insert-IsMap, delete-IsMap,
  lookup-retain, retain-IsMap,
}
use sdk_api.Base.Bytes.{Bytes, codes, bytes_eq}
use sdk_api.Base.Decimal.{all_digits, value_from}
use sdk_api.Base.Text.{to_lower, index, drop, front, after}

-- SSRFConfig.
pub record SsrfConfig : Type 0 where
  pub block_private : Bool
  pub block_loopback : Bool
  pub block_metadata : Bool
  pub allowed_hosts : List Bytes
  pub allow_all : Bool

-- net.IP; an IPv4 address in an IPv6 one is an IPv4 address.
pub data Ip : Type 0 where
  v4 v6 : ℕ → Ip

-- net.IPNet of IPv4: the address and the length of the mask.
pub record IpNet : Type 0 where
  pub base : ℕ
  pub ones : ℕ

-- A number of at most three digits, up to `bound`.
unfoldable pub small_number : (bound : ℕ) → Bytes → Option ℕ
small_number bound s =
    if s == [] || not (all_digits s) || ltb 3 (length s) || ltb bound (value_from 0 s)
    then none
    else some (value_from 0 s)

abbrev before_dot : Bytes → Bytes
before_dot = front (λ c. not (c == b'.'))

abbrev from_dot : Bytes → Bytes
from_dot = after (λ c. not (c == b'.'))

-- So many numbers with dots between them, behind the address read so far.
unfoldable pub parse_quads : (more : ℕ) → (address : ℕ) → Bytes → Option ℕ
parse_quads zero address s = elim (small_number 255 s) [
  | none ↦ none
  | some n ↦ some (address * 256 + n)
]
parse_quads (suc more) address s = elim (small_number 255 (before_dot s)) [
  | none ↦ none
  | some n ↦ elim (from_dot s) [ [] ↦ none | _ ∷ rest ↦ parse_quads more (address * 256 + n) rest ]
]

-- net.ParseCIDR on the ranges below: an error without a slash.
unfoldable pub parse_cidr : Bytes → Option IpNet
parse_cidr s = elim (after (λ c. not (c == b'/')) s) [
  | [] ↦ none
  | _ ∷ mask ↦ elim (parse_quads 3 0 (front (λ c. not (c == b'/')) s)) [
    | none ↦ none
    | some address ↦ elim (small_number 32 mask) [
      | none ↦ none
      | some ones ↦ some (record { base = address; ones = ones })
    ]
  ]
]

-- `privateRanges`, `loopbackRanges` and `metadataRanges`.
abbrev pub private_ranges : List Bytes
private_ranges =
    codes "10.0.0.0/8" ∷ codes "172.16.0.0/12" ∷ codes "192.168.0.0/16" ∷ codes "100.64.0.0/10" ∷ []

abbrev pub loopback_ranges : List Bytes
loopback_ranges = codes "127.0.0.0/8" ∷ codes "::1" ∷ []

abbrev pub metadata_ranges : List Bytes
metadata_ranges = codes "169.254.169.254/32" ∷ []

-- `ssrfChecker`; a range that does not parse is a nil pointer.
pub record SsrfChecker : Type 0 where
  pub private_nets : List (Option IpNet)
  pub loopback_nets : List (Option IpNet)
  pub metadata_nets : List (Option IpNet)
  pub hosts : List Bytes
  pub allow_all : Bool

-- `NewSafeHTTPClient`.
unfoldable pub new_safe_http_client : SsrfConfig → SsrfChecker
new_safe_http_client cfg = record {
  private_nets = if cfg.block_private then map parse_cidr private_ranges else [];
  loopback_nets = if cfg.block_loopback then map parse_cidr loopback_ranges else [];
  metadata_nets = if cfg.block_metadata then map parse_cidr metadata_ranges else [];
  hosts = map to_lower cfg.allowed_hosts;
  allow_all = cfg.allow_all;
}

-- IPNet.Contains.
abbrev pub contains_ip : IpNet → Ip → Bool
contains_ip net (v4 a) = a / 2 ^ (32 - net.ones) == net.base / 2 ^ (32 - net.ones)
contains_ip net (v6 a) = false

-- What a loop over ranges comes to: the address is in none, is in one, or a nil pointer is met.
pub data Search : Type 0 where
  outside inside panicked : Search

unfoldable pub search_nets : List (Option IpNet) → Ip → Search
search_nets [] ip = outside
search_nets (none ∷ nets) ip = panicked
search_nets (some net ∷ nets) ip =
    let rest = search_nets nets ip in if contains_ip net ip then inside else rest

-- The result of `validate`; the range of a refusal is named by its kind.
pub data Verdict : Type 0 where
  allowed unresolved panics : Verdict
  blocked : (kind : String) → Verdict

abbrev pub verdict_of : Search → (kind : String) → Verdict → Verdict
verdict_of outside kind later = later
verdict_of inside kind later = blocked kind
verdict_of panicked kind later = panics

abbrev pub is_allowed_host : List Bytes → Bytes → Bool
is_allowed_host [] host = false
is_allowed_host (h ∷ hosts) host = h == host || is_allowed_host hosts host

-- The three loops.
unfoldable pub check_ip : SsrfChecker → Ip → Verdict
check_ip c ip = verdict_of (search_nets c.private_nets ip) "private" (
    verdict_of (search_nets c.loopback_nets ip) "loopback"
      (verdict_of (search_nets c.metadata_nets ip) "metadata" allowed))

-- A parsed URL: Scheme, Hostname(), Port(), Path.
pub record Url : Type 0 where
  pub scheme : Bytes
  pub host : Bytes
  pub port : Bytes
  pub path : Bytes

-- The request that is sent, or why it is not.
pub data Answer : Type 0 where
  sent : Url → Answer
  bad_url bad_scheme traversal bad_request : Answer
  refused : Verdict → Answer

-- `DoURL` behind `validate`, up to the call of the client.
unfoldable pub forward : (clean : Bytes → Bytes) → (makes : Url → Bool) → Url → Answer
forward clean makes url =
    let scheme = to_lower url.scheme in
    let safe_url : Url = record url { scheme = scheme; path = clean url.path } in
    if not (scheme == codes "http") && not (scheme == codes "https")
    then bad_scheme
    else if is_some (index (codes "..") url.path)
    then traversal
    else if makes safe_url
    then sent safe_url
    else bad_request

abbrev pub unless_refused : Verdict → Answer → Answer
unless_refused allowed later = later
unless_refused v later = refused v

module _ (parse_ip : Bytes → Option Ip) (lookup_ip : Bytes → Option (List Ip)) where
  -- `validate`; of the resolved addresses the first is looked at.
  unfoldable pub validate : SsrfChecker → Bytes → Verdict
  validate c host =
      if c.allow_all || is_allowed_host c.hosts (to_lower host)
      then allowed
      else elim (parse_ip host) [
        | some ip ↦ check_ip c ip
        | none ↦ elim (lookup_ip host) [
          | none ↦ unresolved
          | some [] ↦ allowed
          | some (ip ∷ ips) ↦ check_ip c ip
        ]
      ]

  -- `DoURL`.
  unfoldable pub do_url :
      (parse : Bytes → Option Url)
      → (clean : Bytes → Bytes) → (makes : Url → Bool) → SsrfChecker
      → Bytes
      → Answer
  do_url parse clean makes c text = elim (parse text) [
    | none ↦ bad_url
    | some url ↦ unless_refused (validate c url.host) (forward clean makes url)
  ]
