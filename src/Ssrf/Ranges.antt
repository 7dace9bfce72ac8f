-- ===== src/Ssrf/Ranges.antt =====
-- server/middleware/ssrf.go: the address ranges that are blocked.
use sdk_api.Base.{
  ℕ, ◌+◌, ◌*◌, ◌/◌, ◌^◌, ◌≡◌, refl, ◌≢◌, ◌⊎◌, Option, none, some, [], ◌∷◌, map, arith, nat_eq,
  string_eq,
}
use sdk_api.Base.Bytes.{bytes_eq}
use sdk_api.Ssrf.{
  Ip, v4, v6, IpNet, small_number, parse_quads, parse_cidr, private_ranges, loopback_ranges,
  metadata_ranges, outside, panicked, search_nets,
}

-- An IPv4 address in one of the private ranges, by its first numbers.
abbrev pub IsPrivate : ℕ → Type 0
IsPrivate a =
    (a / 2 ^ 24 ≡ 10)
    ⊎ (a / 2 ^ 20 ≡ 172 * 16 + 1)
    ⊎ (a / 2 ^ 16 ≡ 192 * 256 + 168)
    ⊎ (a / 2 ^ 22 ≡ 100 * 4 + 1)

abbrev pub IsLoopback : ℕ → Type 0
IsLoopback a = a / 2 ^ 24 ≡ 127

-- 169.254.169.254, where the cloud providers answer with credentials.
abbrev pub metadata_address : ℕ
metadata_address = ((169 * 256 + 254) * 256 + 169) * 256 + 254

abbrev pub net : ℕ → ℕ → Option IpNet
net base ones = some (record { base = base; ones = ones })

pub parsed_private :
    map parse_cidr private_ranges
    ≡ net (10 * 2 ^ 24) 8
      ∷ net ((172 * 16 + 1) * 2 ^ 20) 12
      ∷ net ((192 * 256 + 168) * 2 ^ 16) 16
      ∷ net ((100 * 4 + 1) * 2 ^ 22) 10
      ∷ []
unfolding parse_cidr parse_quads small_number
parsed_private = refl

pub parsed_loopback : map parse_cidr loopback_ranges ≡ net (127 * 2 ^ 24) 8 ∷ none ∷ []
unfolding parse_cidr parse_quads small_number
parsed_loopback = refl

pub parsed_metadata : map parse_cidr metadata_ranges ≡ net metadata_address 32 ∷ []
unfolding parse_cidr parse_quads small_number
parsed_metadata = refl

pub search-IsPrivate :
    (a : ℕ) → search_nets (map parse_cidr private_ranges) (v4 a) ≡ outside → ¬ IsPrivate a
unfolding search_nets
search-IsPrivate a e = let found = rw parsed_private at e in ground (arith, found)

pub search_metadata :
    (a : ℕ) → search_nets (map parse_cidr metadata_ranges) (v4 a) ≡ outside → a ≢ metadata_address
unfolding search_nets
search_metadata a e = let found = rw parsed_metadata at e in ground (arith, found)

pub search_loopback :
    (ip : Ip)
    → ((a : ℕ) → ip ≡ v4 a → ¬ IsLoopback a)
    → search_nets (map parse_cidr loopback_ranges) ip ≡ panicked
unfolding search_nets
search_loopback (v4 a) apart = rw parsed_loopback (ground (arith, apart a refl))
search_loopback (v6 a) apart = rw parsed_loopback refl

pub never_outside : (ip : Ip) → search_nets (map parse_cidr loopback_ranges) ip ≢ outside
unfolding search_nets
never_outside (v4 a) e = let found = rw parsed_loopback at e in ground (arith, found)
never_outside (v6 a) e = let found = rw parsed_loopback at e in cc

pub search_private_outside :
    (ip : Ip)
    → ((a : ℕ) → ip ≡ v4 a → ¬ IsPrivate a)
    → search_nets (map parse_cidr private_ranges) ip ≡ outside
unfolding search_nets
search_private_outside (v4 a) apart = rw parsed_private (ground (arith, apart a refl))
search_private_outside (v6 a) apart = rw parsed_private refl
