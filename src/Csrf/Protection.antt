-- ===== src/Csrf/Protection.antt =====
-- server/middleware/csrf.go: what a request needs to change something.
use sdk_api.Base.{
  ◌≡◌, refl, ◌∙◌, ◌≢◌, ◌⊎◌, inl, inr, true, false, ◌&&◌, Option, List, [], ◌∷◌, ◌++◌, arith, ◌==◌,
  ==_iff, nat_eq, string_eq, Bool-cases, Option-cases, contains, kept,
}
use sdk_api.Base.Bytes.{
  Bytes, bytes_eq, bytes_beq_iff, codes, is_prefix_sound, cut_suffix, cut_suffix_sound,
}
use sdk_api.Csrf.{
  CsrfConfig, Request, forbidden, cookie_name, header_name, is_json_content_type, excludes,
  is_excluded_path, is_safe_method, check_tokens, csrf,
}

-- The entry is the path, or it ends in `/*` and the path begins with what stands before that.
pub data Excludes (ep path : Bytes) : Type 0 where
  exact : ep ≡ path → Excludes ep path
  below :
      (before rest : Bytes) → ep ≡ before ++ codes "/*" → path ≡ before ++ rest → Excludes ep path

-- Why a request needs no token.
pub data Exempt (cfg : CsrfConfig) (req : Request) : Type 0 where
  excluded :
      (ep : Bytes) → contains cfg.exclude_paths ep ≡ true → Excludes ep req.path → Exempt cfg req
  skipped : req.csrf_skip ≡ true → Exempt cfg req
  json : cfg.json_check ≡ true → is_json_content_type req ≡ true → Exempt cfg req

excludes_sound : (ep path : Bytes) → excludes ep path ≡ true → Excludes ep path
unfolding excludes
excludes_sound [] path e = cc
excludes_sound (c ∷ ep) path e = elim (Option-cases (cut_suffix (codes "/*") (c ∷ ep))) [
  | inl plain ↦ exact (ground (arith, ==_iff (c ∷ ep) path))
  | inr (before, cut) ↦
      let (rest, same) = is_prefix_sound before path (ground arith) in
      below before rest (cut_suffix_sound (codes "/*") (c ∷ ep) before cut) same
]

is_excluded_path_sound :
    (path : Bytes) (eps : List Bytes)
    → is_excluded_path path eps ≡ true
    → (ep : Bytes) × (contains eps ep ≡ true) × Excludes ep path
unfolding is_excluded_path contains
is_excluded_path_sound path [] e = cc
is_excluded_path_sound path (ep ∷ eps) e = elim (Bool-cases (excludes ep path)) [
  | inl hit ↦ (ep, ground (arith, ==_iff ep ep), excludes_sound ep path hit)
  | inr miss ↦
      let (q, m, x) = is_excluded_path_sound path eps (ground arith) in (q, ground arith, x)
]

check_tokens_passes :
    (header_token cookie_token : Bytes)
    → check_tokens header_token cookie_token ≢ forbidden
    → (header_token ≢ []) × (header_token ≡ cookie_token)
unfolding check_tokens
check_tokens_passes h c ok = elim (Bool-cases (h == [])) [
  | inl empty ↦ absurd (ok (rw empty refl))
  | inr given ↦ elim (Bool-cases (c == [])) [
    | inl missing ↦ absurd (ok (ground arith))
    | inr sent ↦ elim (Bool-cases (h == c)) [
      | inl same ↦ (λ e. ground (arith, bytes_beq_iff h []), (==_iff h c).0 same)
      | inr differs ↦ absurd (ok (ground arith))
    ]
  ]
]

-- A request that is neither GET, HEAD nor OPTIONS is passed on only if it carries the same
-- non-empty token in the header and in the cookie, or is exempt: its path is excluded, a handler
-- above has set the skip mark, or its content is JSON and the configuration lets JSON through.
pub csrf_protects :
    (cfg : CsrfConfig) (token : Option Bytes) (req : Request)
    → is_safe_method req.method ≡ false
    → csrf cfg token req ≢ forbidden
    → Exempt cfg req
      ⊎ ((req.header (header_name cfg) ≢ [])
          × (req.header (header_name cfg) ≡ req.cookie (cookie_name cfg)))
unfolding csrf
csrf_protects cfg token req unsafe ok =
    let h = req.header (header_name cfg) in
    let c = req.cookie (cookie_name cfg) in
    elim (Bool-cases (is_excluded_path req.path cfg.exclude_paths)) [
      | inl out ↦
          let (ep, m, x) = is_excluded_path_sound req.path cfg.exclude_paths out in
          inl (excluded ep m x)
      | inr inside ↦ elim (Bool-cases req.csrf_skip) [
        | inl skip ↦ inl (skipped skip)
        | inr kept ↦ elim (Bool-cases (cfg.json_check && is_json_content_type req)) [
          | inl is ↦ inl (json (ground arith) (ground arith))
          | inr other ↦
              let e : csrf cfg token req ≡ check_tokens h c =
                rw (inside, csrf) (rw kept (rw unsafe (rw other refl))) in
              inr (check_tokens_passes h c (λ f. ok (e ∙ f)))
        ]
      ]
    ]
