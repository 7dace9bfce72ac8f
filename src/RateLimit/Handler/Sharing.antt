-- ===== src/RateLimit/Handler/Sharing.antt =====
-- server/middleware/rate_limit.go, RateLimitPost: limits whose prefixes lead to one map share the
-- limiter that the first of them has made, so the entry's own limits are not looked at.
use sdk_api.Base.{
  ℕ, suc, ◌<◌, String, ◌≡◌, refl, sym, ap, ◌∙◌, ◌≢◌, inl, inr, Bool, true, false, not, Option, none,
  some, List, [], ◌∷◌, arith, ltb, ◌==◌, ==_iff, nat_eq, string_eq, if◌then◌else◌, Bool-cases,
  lookup,
}
use sdk_api.RateLimit.Limiter.{External, RateLimitEntry}
use sdk_api.RateLimit.Store.{EntryState, is_live, table_of, Store, get_or_create}
use sdk_api.RateLimit.Store.Entries.{entry_at, get_or_create_of_live}
use sdk_api.RateLimit.Store.Ownership.{IsValid, get_or_create_owner}
use sdk_api.RateLimit.Handler.{
  RateLimitPostConfig, Caller, PostTimes, active, resolve_post_entry, allow_at, check_post_limit,
  check_roles, check_role_limits, admit_post,
}
use sdk_api.RateLimit.Handler.Isolation.{allow_at_entry}

same_map : table_of "key" ≡ table_of "entry_key"
unfolding table_of
same_map = refl

-- The limit of an entry, which MaxFunc may replace.
abbrev pub resolved : RateLimitEntry → Option ℕ → RateLimitEntry
resolved e none = e
resolved e (some m) =
    if ltb 0 m then record { requests_per_second = m; burst = m; ttl = e.ttl } else e

active-resolve_post_entry :
    (e : RateLimitEntry) (max : Option ℕ)
    → 0 < e.requests_per_second
    → active (resolve_post_entry (some e) max) ≡ some (resolved e max)
unfolding resolve_post_entry
active-resolve_post_entry e none pos = ground arith
active-resolve_post_entry e (some m) pos = ground arith

module _ (ext : External) where
  check_active :
      (s : Store ext) (prefix key : String) (e : RateLimitEntry) (max : Option ℕ) (at : ℕ × ℕ)
      → 0 < e.requests_per_second
      → key ≢ ""
      → let r = get_or_create ext s prefix key (resolved e max) at.0 in
        check_post_limit ext (some e) max prefix key at s
        ≡ ((allow_at ext r.1 r.0 at.1).0, not (allow_at ext r.1 r.0 at.1).1)
  unfolding check_post_limit
  check_active s prefix key e max at pos named =
      let nonempty : (key == "") ≡ false = ground (arith, ==_iff key "") in
      rw (check_post_limit, active-resolve_post_entry e max pos) (rw nonempty)

  -- The entry that a lookup has found or made is still live at a later time.
  abbrev pub StaysLive :
      Store ext → (prefix key : String) → RateLimitEntry → (looked later : ℕ) → Type 0
  StaysLive s prefix key e looked later =
      (es : EntryState)
      → entry_at ext (table_of prefix) key (get_or_create ext s prefix key e looked).0 ≡ some es
      → is_live es later ≡ true

  module _ (s : Store ext) (v : IsValid ext s) (p q key : String) (first : RateLimitEntry)
      (at : ℕ × ℕ) (later : ℕ) (one_map : table_of p ≡ table_of q)
      (stays : StaysLive s p key first at.0 later) where
    -- The second lookup finds the limiter of the first, after it was asked too.
    get_or_create_again :
        (second : RateLimitEntry)
        → let r = get_or_create ext s p key first at.0 in
          let s' = (allow_at ext r.1 r.0 at.1).0 in
          get_or_create ext s' q key second later ≡ (s', r.1)
    get_or_create_again second =
        let r = get_or_create ext s p key first at.0 in
        let s' = (allow_at ext r.1 r.0 at.1).0 in
        let (es, (found, _), same) = get_or_create_owner ext s v p key first at.0 in
        let again : entry_at ext (table_of q) key s' ≡ some es =
          rw (← one_map) (allow_at_entry ext r.1 r.0 at.1 (table_of p) key ∙ found) in
        get_or_create_of_live ext s' q key second later es again (stays es found)
        ∙ ap (λ (a : ℕ). (s', a)) same

  no_role_limit :
      (at : ℕ → ℕ × ℕ) (roles : List String) (s : Store ext)
      → check_roles ext [] at roles s ≡ (s, false)
  unfolding check_roles lookup
  no_role_limit at [] s = refl
  no_role_limit at (r ∷ roles) s = no_role_limit (λ i. at (suc i)) roles s

  no_role_limits :
      (at : ℕ → ℕ × ℕ) (roles : Option (List String)) (s : Store ext)
      → check_role_limits ext [] at roles s ≡ (s, false)
  unfolding check_role_limits
  no_role_limits at none s = refl
  no_role_limits at (some roles) s = no_role_limit at roles s

  no_limit :
      (max : Option ℕ) (prefix key : String) (at : ℕ × ℕ) (s : Store ext)
      → check_post_limit ext none max prefix key at s ≡ (s, false)
  unfolding check_post_limit
  no_limit max prefix key at s = refl

-- Limits per key, of the server and of the entry.
abbrev pub per_key_limits : (server entry : RateLimitEntry) → RateLimitPostConfig
per_key_limits server entry = record {
  server_per_user = none;
  server_per_key = some server;
  entry_per_user = none;
  entry_per_key = some entry;
  per_role_limits = [];
}

module _ (ext : External) (s : Store ext) (v : IsValid ext s) (c : Caller) (server : RateLimitEntry)
    (at : PostTimes) (pos : 0 < server.requests_per_second) (named : c.key_id ≢ "")
    (stays : StaysLive ext s "key" c.key_id (resolved server c.max) at.key.0 at.entry_key.0) where
  abbrev server_check : Store ext × Bool
  server_check =
      let r = get_or_create ext s "key" c.key_id (resolved server c.max) at.key.0 in
      allow_at ext r.1 r.0 at.key.1

  abbrev second_check : Store ext × Bool
  second_check =
      let r = get_or_create ext s "key" c.key_id (resolved server c.max) at.key.0 in
      allow_at ext r.1 server_check.0 at.entry_key.1

  admit_per_key :
      (entry : RateLimitEntry)
      → 0 < entry.requests_per_second
      → admit_post ext (per_key_limits server entry) s c at
        ≡ (if server_check.1 then (second_check.0, not second_check.1) else (server_check.0, true))
  unfolding admit_post
  admit_per_key entry pos' = rw (no_limit ext c.max "user" c.user_id at.user s) (
      rw (check_active ext s "key" c.key_id server c.max at.key pos named)
        (elim (Bool-cases server_check.1) [
          | inl through ↦ rw through (
              rw (no_role_limits ext at.role c.roles server_check.0) (
                rw (no_limit ext c.max "entry_user" c.user_id at.entry_user server_check.0) (
                  rw
                    (check_active ext server_check.0 "entry_key" c.key_id entry c.max at.entry_key
                      pos' named)
                    (rw (
                      get_or_create_again ext s v "key" "entry_key" c.key_id (resolved server c.max)
                        at.key at.entry_key.0 same_map stays (resolved entry c.max))))))
          | inr blocked ↦ rw blocked
        ]))

  -- With limits above 0 per key of the server and of the entry, and none per user and role, the
  -- limits of the entry change nothing, whatever MaxFunc answers, as long as it answers the same
  -- each time: RateLimitPost leaves the same store and gives the same answer to an authenticated
  -- key, on every valid store. The clock is read at each lookup and each Allow; the entry that the
  -- first lookup finds or makes is still live at the second.
  pub admit_post_ignores_entry_per_key :
      (entry other : RateLimitEntry)
      → 0 < entry.requests_per_second
      → 0 < other.requests_per_second
      → admit_post ext (per_key_limits server entry) s c at
        ≡ admit_post ext (per_key_limits server other) s c at
  admit_post_ignores_entry_per_key entry other pos' pos'' =
      admit_per_key entry pos' ∙ sym (admit_per_key other pos'')
