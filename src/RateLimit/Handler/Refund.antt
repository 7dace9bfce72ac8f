-- ===== src/RateLimit/Handler/Refund.antt =====
-- server/middleware/rate_limit.go: what a request that is skipped afterwards costs.
use sdk_api.Base.{
  ℕ, zero, suc, ◌<◌, ◌/◌, String, ◌≡◌, refl, ap, ◌∙◌, true, false, none, some, List, [], ◌∷◌, arith,
  nat_eq, string_eq, length, get_elem?, set, get_elem?-set_self,
}
use sdk_api.RateLimit.Window
use sdk_api.RateLimit.Window.{Window}
use sdk_api.RateLimit.Window.Fixed.{IsFixed, allow_of_room}
use sdk_api.RateLimit.Window.Budget.{cancel-allow}
use sdk_api.RateLimit.Limiter
use sdk_api.RateLimit.Limiter.{External, Limiter, RateLimitEntry, second, sliding}
use sdk_api.RateLimit.Store.{Store, get_or_create}
use sdk_api.RateLimit.Handler.{
  RateLimitConfig, next, NextResult, active, should_skip_request, allow_at, remaining_at, cancel_at,
  cancel_used, use_limiter, admit_global, admit_ip, admit, settle,
}

module _ {ℓ} {A : Type ℓ} where
  get_elem?-lt : (xs : List A) (i : ℕ) (x : A) → get_elem? xs i ≡ some x → i < length xs
  get_elem?-lt [] i x e = cc
  get_elem?-lt (y ∷ ys) zero x e = omega arith
  get_elem?-lt (y ∷ ys) (suc i) x e = omega (arith, get_elem?-lt ys i x e)

  -- Writing and then writing back what was there.
  set-set_back :
      (xs : List A) (i : ℕ) (x y : A) → get_elem? xs i ≡ some x → set (set xs i y) i x ≡ xs
  set-set_back [] i x y e = refl
  set-set_back (z ∷ zs) zero x y e = ground arith
  set-set_back (z ∷ zs) (suc i) x y e = ap (λ (t : List A). z ∷ t) (set-set_back zs i x y e)

module _ (ext : External) where
  cancel_at-allow_at :
      (a : ℕ) (s : Store ext) (now : ℕ) (w : Window)
      → get_elem? s.heap a ≡ some (sliding w)
      → IsFixed w
      → now / second < w.window_exp
      → w.curr_hits < w.max
      → (cancel_at ext a (allow_at ext a s now).0 ≡ s) × ((allow_at ext a s now).1 ≡ true)
  unfolding cancel_at allow_at Limiter.allow Limiter.cancel
  cancel_at-allow_at a s now w at v open_ room =
      let w' = (Window.allow w (now / second)).0 in
      let asked : allow_at ext a s now
          ≡ (record s { heap = set s.heap a (sliding w') }, (Window.allow w (now / second)).1) =
        rw (at, allow_at) refl in
      let there : get_elem? (set s.heap a (sliding w')) a ≡ some (sliding w') =
        get_elem?-set_self s.heap a (sliding w') (get_elem?-lt s.heap a (sliding w) at) in
      let back : Window.cancel w' ≡ w = cancel-allow w (now / second) v open_ room in
      (
        ap (λ r. cancel_at ext a r.0) asked
            ∙ (rw (there, cancel_at)
                (ap
                    (λ (x : Window). record s {
                      heap = set (set s.heap a (sliding w')) a (sliding x);
                    })
                    back
                  ∙ ap (λ (h : List (Limiter ext)). record s { heap = h })
                      (set-set_back s.heap a (sliding w) (sliding w') at))),
        ap (λ r. r.1) asked ∙ ap (λ r. r.1) (allow_of_room w (now / second) v open_ room),
      )

  module _ (cfg : RateLimitConfig) (s : Store ext) (ip : String) (now : ℕ) (e : RateLimitEntry)
      (no_global : s.global ≡ none) (limited : active cfg.per_ip ≡ some e) where
    abbrev held : Store ext × ℕ
    held = get_or_create ext s "ip" ip e now

    -- With no global limit a request asks the limiter of its IP, and no other.
    admit_per_ip :
        admit ext cfg s ip now ≡ use_limiter ext held.1 e.requests_per_second [] held.0 now
    unfolding admit admit_ip admit_global
    admit_per_ip =
        let passed : admit_global ext cfg s now ≡ (s, next [] 0 0) = ground arith in
        ap (admit_ip ext cfg ip now) passed ∙ rw (limited, admit_ip) refl

    -- With no global limit and a limit per IP on a sliding limiter that has room in its open
    -- window, a request that is let through and is then skipped by its status leaves the store as
    -- the lookup of its limiter had left it: its hit is given back.
    pub settle-admit :
        (w : Window) (res : NextResult)
        → get_elem? held.0.heap held.1 ≡ some (sliding w)
        → IsFixed w
        → now / second < w.window_exp
        → w.curr_hits < w.max
        → res.failed ≡ false
        → should_skip_request cfg res.status ≡ true
        → (limit : ℕ) × (left : ℕ) × ((admit ext cfg s ip now).1 ≡ next (held.1 ∷ []) limit left)
          × (settle ext cfg (held.1 ∷ []) res (admit ext cfg s ip now).0 ≡ held.0)
    unfolding settle use_limiter cancel_used
    settle-admit w res at v open_ room fine skip =
        let (back, through) = cancel_at-allow_at held.1 held.0 now w at v open_ room in
        let a = held.1 in
        let s' = (allow_at ext a held.0 now).0 in
        (
          e.requests_per_second,
          remaining_at ext a s' now,
          ap (λ r. r.1) admit_per_ip ∙ rw through refl,
          rw admit_per_ip (rw fine (rw skip back)),
        )
