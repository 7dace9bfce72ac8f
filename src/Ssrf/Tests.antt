-- ===== src/Ssrf/Tests.antt =====
-- Runs of server/middleware/ssrf.go on concrete addresses.
use sdk_api.Base.{
  ℕ, ◌+◌, ◌*◌, ◌^◌, ◌≡◌, refl, inr, Bool, true, false, Option, none, some, List, [], ◌∷◌, arith,
  nat_eq, string_eq,
}
use sdk_api.Base.Bytes.{Bytes, codes, bytes_eq}
use sdk_api.Base.Text.{index}
use sdk_api.Ssrf.Ranges.{IsPrivate, IsLoopback}
use sdk_api.Ssrf.Guard.{Resolves, Checked, Passed, Forwarded, validate_panics, do_url_guards}
use sdk_api.Ssrf.{
  SsrfConfig, Ip, v4, small_number, parse_quads, parse_cidr, new_safe_http_client, search_nets,
  panics, blocked, check_ip, Url, sent, forward, validate, do_url,
}

abbrev config : Bool → SsrfConfig
config loopback = record {
  block_private = true;
  block_loopback = loopback;
  block_metadata = true;
  allowed_hosts = codes "Partner.example" ∷ [];
  allow_all = false;
}

-- 8.8.8.8
abbrev public_address : ℕ
public_address = ((8 * 256 + 8) * 256 + 8) * 256 + 8

abbrev no_literal : Bytes → Option Ip
no_literal s = none

abbrev resolve_public : Bytes → Option (List Ip)
resolve_public s = some (v4 public_address ∷ [])

abbrev target : Url
target = record {
  scheme = codes "HTTPS";
  host = codes "api.example";
  port = [];
  path = codes "/v1";
}

abbrev as_sent : Url
as_sent = record target { scheme = codes "https" }

abbrev keep_path : Bytes → Bytes
keep_path s = s

target_Checked : Checked (config false) target.host
target_Checked = (refl, refl)

target_Resolves : Resolves no_literal resolve_public target.host (v4 public_address)
target_Resolves = inr (refl, [], refl)

target_sent :
    do_url no_literal resolve_public
      (λ _. some target)
      keep_path
      (λ _. true)
      (new_safe_http_client (config false))
      []
    ≡ sent as_sent
unfolding do_url validate check_ip new_safe_http_client search_nets parse_cidr parse_quads
    small_number forward index
target_sent = refl

do_url_guards_example : Passed (config false) public_address × Forwarded target as_sent
do_url_guards_example =
    do_url_guards no_literal resolve_public (λ _. some target) keep_path (λ _. true) (config false)
      [] target as_sent public_address refl target_Checked target_Resolves target_sent

v4-injective : (a b : ℕ) → v4 a ≡ v4 b → a ≡ b
v4-injective a b e = cc

public_apart : (a : ℕ) → v4 public_address ≡ v4 a → (¬ IsPrivate a) × (¬ IsLoopback a)
public_apart a e =
    let same = v4-injective public_address a e in (ground (arith, same), ground (arith, same))

validate_panics_example :
    validate no_literal resolve_public (new_safe_http_client (config true)) target.host ≡ panics
validate_panics_example =
    validate_panics no_literal resolve_public (config true) target.host (v4 public_address)
      (refl, refl) target_Resolves refl public_apart

private_blocked :
    check_ip (new_safe_http_client (config true)) (v4 (10 * 2 ^ 24 + 5)) ≡ blocked "private"
unfolding check_ip new_safe_http_client search_nets parse_cidr parse_quads small_number
private_blocked = refl
