-- ===== src/OauthStore/Rotation.antt =====
-- server/auth/oauthstore/store.go, RotateRefreshToken: a request with two refresh tokens.
use sdk_api.Base.{
  String, ◌≡◌, refl, ap, ◌≢◌, inl, inr, Bool, true, false, none, some, List, [], ◌∷◌, arith, ◌==◌,
  ==_iff, nat_eq, string_eq, Bool-cases, Option-cases, Map, lookup, contains,
}
use sdk_api.OauthStore.{
  refresh_token, SessionKey, key_eq, Row, Store, key, update_rows, deactivate, is_of,
  latest_refresh, refresh_keys, rename_all, retire_latest, rotate_refresh_token,
}

refresh_keys-update_rows :
    (request_id : String) (where_ : SessionKey → Row → Bool) (rows : Map SessionKey Row)
    → refresh_keys request_id (update_rows where_ deactivate rows) ≡ refresh_keys request_id rows
unfolding refresh_keys update_rows
refresh_keys-update_rows request_id where_ [] = refl
refresh_keys-update_rows request_id where_ ((k, row) ∷ rows) =
    ground (arith, refresh_keys-update_rows request_id where_ rows)

refresh_keys-retire_latest :
    (request_id : String) (rows : Map SessionKey Row)
    → refresh_keys request_id (retire_latest request_id rows) ≡ refresh_keys request_id rows
unfolding retire_latest
refresh_keys-retire_latest request_id rows = elim (Option-cases (latest_refresh request_id rows)) [
  | inl nothing ↦ rw (nothing, retire_latest) refl
  | inr ((old, row), found) ↦ elim (Bool-cases (old.signature == "")) [
    | inl unnamed ↦ rw (found, retire_latest) (rw unnamed refl)
    | inr named ↦
        rw (found, retire_latest)
          (rw named
            (refresh_keys-update_rows request_id (λ k r. k.signature == old.signature) rows))
  ]
]

contains-refresh_keys :
    (request_id : String) (k : SessionKey) (row : Row) (rows : Map SessionKey Row)
    → lookup k rows ≡ some row
    → is_of refresh_token request_id k row ≡ true
    → contains (refresh_keys request_id rows) k ≡ true
unfolding refresh_keys lookup contains
contains-refresh_keys request_id k row [] e of_it = cc
contains-refresh_keys request_id k row ((j, r) ∷ rows) e of_it = elim (Bool-cases (j == k)) [
  | inl same ↦ let is : j ≡ k = (==_iff j k).0 same in ground (arith, ==_iff k k, is)
  | inr other ↦ ground (arith, contains-refresh_keys request_id k row rows)
]

rename_all_of_two :
    (ks : List SessionKey) (j k new : SessionKey) (rows : Map SessionKey Row)
    → j ≢ k
    → contains ks j ≡ true
    → contains ks k ≡ true
    → rename_all ks new rows ≡ none
unfolding rename_all contains
rename_all_of_two [] j k new rows differs at_j at_k = cc
rename_all_of_two (a ∷ []) j k new rows differs at_j at_k =
    absurd (ground (arith, ==_iff a j, ==_iff a k))
rename_all_of_two (a ∷ b ∷ ks) j k new rows differs at_j at_k = refl

-- Where a request has refresh tokens under two signatures, active or not, RotateRefreshToken fails:
-- the update would give both the same signature.
pub rotate_refresh_token_fails :
    (request_id signature first second : String) (s : Store) (row other : Row)
    → first ≢ second
    → lookup (key first refresh_token) s.sessions ≡ some row
    → lookup (key second refresh_token) s.sessions ≡ some other
    → row.request.request_id ≡ request_id
    → other.request.request_id ≡ request_id
    → (rotate_refresh_token request_id signature s).1 ≡ false
unfolding rotate_refresh_token
rotate_refresh_token_fails request_id signature first second s row other differs at_1 at_2 of_1
      of_2 =
    let j = key first refresh_token in
    let k = key second refresh_token in
    let all = refresh_keys request_id s.sessions in
    let listed_1 : contains all j ≡ true =
      contains-refresh_keys request_id j row s.sessions at_1
        (ground (arith, ==_iff row.request.request_id request_id)) in
    let listed_2 : contains all k ≡ true =
      contains-refresh_keys request_id k other s.sessions at_2
        (ground (arith, ==_iff other.request.request_id request_id)) in
    let stuck : rename_all all (key signature refresh_token) (retire_latest request_id s.sessions)
        ≡ none =
      rename_all_of_two all j k (key signature refresh_token) _
        (λ e. differs (ap (λ x. x.signature) e)) listed_1 listed_2 in
    rw (refresh_keys-retire_latest request_id s.sessions, rotate_refresh_token) (rw stuck refl)
