-- ===== src/Ssrf/Guard.antt =====
-- server/middleware/ssrf.go: which requests are sent.
use sdk_api.Base.{
  ℕ, String, ◌≡◌, refl, sym, ap, ◌∙◌, ◌≢◌, ◌⊎◌, inl, inr, Bool, true, false, not, ◌&&◌, Option,
  none, some, List, ◌∷◌, map, ◌==◌, ==_iff, nat_eq, string_eq, if◌then◌else◌, Bool-cases, is_some,
}
use sdk_api.Base.Bytes.{Bytes, codes, bytes_eq}
use sdk_api.Base.Text.{to_lower, index}
use sdk_api.Ssrf.{
  SsrfConfig, Ip, v4, new_safe_http_client, Search, outside, inside, panicked, search_nets, Verdict,
  allowed, unresolved, panics, blocked, is_allowed_host, check_ip, verdict_of, Url, Answer, sent,
  bad_scheme, bad_request, traversal, forward, unless_refused, validate, do_url,
}
use sdk_api.Ssrf.Ranges.{
  IsPrivate, IsLoopback, metadata_address, search-IsPrivate, search_metadata, search_loopback,
  never_outside, search_private_outside,
}

verdict_outside :
    (s : Search) (kind : String) (later : Verdict)
    → verdict_of s kind later ≡ allowed
    → (s ≡ outside) × (later ≡ allowed)
verdict_outside outside kind later e = (refl, e)
verdict_outside inside kind later e = absurd (cc)
verdict_outside panicked kind later e = absurd (cc)

-- What is known of an address that is let through.
abbrev pub Passed : SsrfConfig → ℕ → Type 0
Passed cfg a =
    (cfg.block_private ≡ true → ¬ IsPrivate a)
    × (cfg.block_metadata ≡ true → a ≢ metadata_address)
    × (cfg.block_loopback ≡ false)

check_ip-Passed :
    (cfg : SsrfConfig) (a : ℕ) → check_ip (new_safe_http_client cfg) (v4 a) ≡ allowed → Passed cfg a
unfolding check_ip new_safe_http_client
check_ip-Passed cfg a e =
    let c = new_safe_http_client cfg in
    let (private_out, later) = verdict_outside (search_nets c.private_nets (v4 a)) "private" _ e in
    let (loopback_out, last) =
      verdict_outside (search_nets c.loopback_nets (v4 a)) "loopback" _ later in
    let (metadata_out, _) =
      verdict_outside (search_nets c.metadata_nets (v4 a)) "metadata" allowed last in
    (
      λ on. search-IsPrivate a (rw on at private_out),
      λ on. search_metadata a (rw on at metadata_out),
      elim (Bool-cases cfg.block_loopback) [
        | inl on ↦ absurd (never_outside (v4 a) (rw on at loopback_out))
        | inr off ↦ off
      ],
    )

check_ip_panics :
    (cfg : SsrfConfig) (ip : Ip)
    → cfg.block_loopback ≡ true
    → ((a : ℕ) → ip ≡ v4 a → (¬ IsPrivate a) × (¬ IsLoopback a))
    → check_ip (new_safe_http_client cfg) ip ≡ panics
unfolding check_ip new_safe_http_client search_nets
check_ip_panics cfg ip on apart =
    let private_out = search_private_outside ip (λ a e. (apart a e).0) in
    let loopback_panics = search_loopback ip (λ a e. (apart a e).1) in
    elim (Bool-cases cfg.block_private) [
      | inl private ↦ rw (on, private, private_out, loopback_panics) refl
      | inr open_ ↦ rw (on, open_, loopback_panics) refl
    ]

unless_refused_sent :
    (v : Verdict) (later : Answer) (u : Url)
    → unless_refused v later ≡ sent u
    → (v ≡ allowed) × (later ≡ sent u)
unless_refused_sent allowed later u e = (refl, e)
unless_refused_sent unresolved later u e = absurd (cc)
unless_refused_sent panics later u e = absurd (cc)
unless_refused_sent (blocked kind) later u e = absurd (cc)

-- What is known of a request that is sent.
abbrev pub Forwarded : Url → Url → Type 0
Forwarded url u =
    ((u.scheme ≡ codes "http") ⊎ (u.scheme ≡ codes "https"))
    × (index (codes "..") url.path ≡ none)
    × (u.host ≡ url.host)

sent-injective : (u v : Url) → sent u ≡ sent v → u ≡ v
sent-injective u v e = cc

answer_sent :
    (http https dots made : Bool) (w u : Url)
    → (if not http && not https
        then bad_scheme
        else if dots
        then traversal
        else if made
        then sent w
        else bad_request)
      ≡ sent u
    → ((http ≡ true) ⊎ (https ≡ true)) × (dots ≡ false) × (w ≡ u)
answer_sent true https true made w u e = absurd (cc)
answer_sent true https false true w u e = (inl refl, refl, sent-injective w u e)
answer_sent true https false false w u e = absurd (cc)
answer_sent false true true made w u e = absurd (cc)
answer_sent false true false true w u e = (inr refl, refl, sent-injective w u e)
answer_sent false true false false w u e = absurd (cc)
answer_sent false false dots made w u e = absurd (cc)

not_found : (o : Option ℕ) → is_some o ≡ false → o ≡ none
not_found none e = refl
not_found (some n) e = absurd (cc)

forward-Forwarded :
    (clean : Bytes → Bytes) (makes : Url → Bool) (url u : Url)
    → forward clean makes url ≡ sent u
    → Forwarded url u
unfolding forward
forward-Forwarded clean makes url u e =
    let scheme = to_lower url.scheme in
    let w : Url = record url { scheme = scheme; path = clean url.path } in
    let (good, clear, same) =
      answer_sent (scheme == codes "http") (scheme == codes "https")
        (is_some (index (codes "..") url.path)) (makes w) w u e in
    (
      elim good [
        | inl http ↦
            inl (sym (ap (λ (v : Url). v.scheme) same) ∙ (==_iff scheme (codes "http")).0 http)
        | inr https ↦
            inr (sym (ap (λ (v : Url). v.scheme) same) ∙ (==_iff scheme (codes "https")).0 https)
      ],
      not_found _ clear,
      sym (ap (λ (v : Url). v.host) same),
    )

-- The host is not exempt.
abbrev pub Checked : SsrfConfig → Bytes → Type 0
Checked cfg host =
    (cfg.allow_all ≡ false)
    × (is_allowed_host (map to_lower cfg.allowed_hosts) (to_lower host) ≡ false)

module _ (parse_ip : Bytes → Option Ip) (lookup_ip : Bytes → Option (List Ip)) where
  -- The address that `validate` looks at.
  abbrev pub Resolves : Bytes → Ip → Type 0
  Resolves host ip =
      (parse_ip host ≡ some ip)
      ⊎ ((parse_ip host ≡ none) × (ips : List Ip) × (lookup_ip host ≡ some (ip ∷ ips)))

  validate-Checked :
      (cfg : SsrfConfig) (host : Bytes) (ip : Ip)
      → Checked cfg host
      → Resolves host ip
      → validate parse_ip lookup_ip (new_safe_http_client cfg) host
        ≡ check_ip (new_safe_http_client cfg) ip
  unfolding validate new_safe_http_client check_ip
  validate-Checked cfg host ip (all, named) (inl parsed) =
      rw (validate, new_safe_http_client, all, named, parsed) refl
  validate-Checked cfg host ip (all, named) (inr (unparsed, ips, resolved)) =
      rw (validate, new_safe_http_client, all, named, unparsed, resolved) refl

  -- Where loopback addresses are to be blocked, the check of a host that is not exempt panics for
  -- every address, IPv6 ones included, that is neither a private nor a loopback one of IPv4.
  pub validate_panics :
      (cfg : SsrfConfig) (host : Bytes) (ip : Ip)
      → Checked cfg host
      → Resolves host ip
      → cfg.block_loopback ≡ true
      → ((a : ℕ) → ip ≡ v4 a → (¬ IsPrivate a) × (¬ IsLoopback a))
      → validate parse_ip lookup_ip (new_safe_http_client cfg) host ≡ panics
  validate_panics cfg host ip checked resolves on apart =
      validate-Checked cfg host ip checked resolves ∙ check_ip_panics cfg ip on apart

  -- A request that DoURL sends for a host that is not exempt, whose address that is checked is
  -- IPv4, goes to that host by http or https, with no two dots in its path before the cleaning; the
  -- address is not private where private addresses are blocked, nor that of the metadata service
  -- where that one is blocked; and loopback addresses are not to be blocked, since every request
  -- panics or is refused where they are.
  pub do_url_guards :
      (parse : Bytes → Option Url) (clean : Bytes → Bytes) (makes : Url → Bool) (cfg : SsrfConfig)
      (text : Bytes) (url u : Url) (a : ℕ)
      → parse text ≡ some url
      → Checked cfg url.host
      → Resolves url.host (v4 a)
      → do_url parse_ip lookup_ip parse clean makes (new_safe_http_client cfg) text ≡ sent u
      → Passed cfg a × Forwarded url u
  unfolding do_url
  do_url_guards parse clean makes cfg text url u a parsed checked resolves is_sent =
      let c = new_safe_http_client cfg in
      let (is_allowed, forwarded) =
        unless_refused_sent (validate parse_ip lookup_ip c url.host) (forward clean makes url) u
          (rw (do_url, parsed) at is_sent) in
      let checked_ip = sym (validate-Checked cfg url.host (v4 a) checked resolves) ∙ is_allowed in
      (check_ip-Passed cfg a checked_ip, forward-Forwarded clean makes url u forwarded)
