-- ===== src/OauthStore/Sessions.antt =====
-- server/auth/oauthstore/store.go: what is loaded after a session was saved, invalidated, deleted or
-- revoked.
use sdk_api.Base.{
  ℕ, ◌+◌, String, ◌≡◌, refl, inl, inr, Bool, true, Option, none, some, [], ◌∷◌, arith, ◌==◌, ==_iff,
  nat_eq, string_eq, if◌then◌else◌, Bool-cases, Option-cases, is_some, Map, lookup, insert,
  lookup-insert,
}
use sdk_api.OauthStore.{
  SessionType, authorize_code, SessionKey, key_beq_iff, key_eq, Request, Row, Client, Store,
  not_found, inactive_token, key, hour, upserted, save_session, load_session, update_rows,
  deactivate, invalidate_authorize_code, is_of, revoke,
}

abbrev changed : (SessionKey → Row → Bool) → (Row → Row) → SessionKey → Option Row → Option Row
changed where_ change k none = none
changed where_ change k (some row) = some (if where_ k row then change row else row)

pub lookup-update_rows :
    (where_ : SessionKey → Row → Bool) (change : Row → Row) (k : SessionKey)
    (rows : Map SessionKey Row)
    → lookup k (update_rows where_ change rows) ≡ changed where_ change k (lookup k rows)
unfolding lookup update_rows
lookup-update_rows where_ change k [] = refl
lookup-update_rows where_ change k ((j, row) ∷ rows) = elim (Bool-cases (j == k)) [
  | inl same ↦ let is : j ≡ k = (==_iff j k).0 same in rw is (ground (arith, ==_iff k k))
  | inr other ↦ ground (arith, lookup-update_rows where_ change k rows)
]

-- A session that is saved under a new signature, for a client that is known, is loaded as it was.
pub load_session-save_session :
    (signature : String) (kind : SessionType) (req : Request) (now : ℕ) (s : Store)
    (client : Client)
    → lookup (key signature kind) s.sessions ≡ none
    → lookup req.client_id s.clients ≡ some client
    → load_session signature kind (save_session signature kind req now s) ≡ inl req
unfolding load_session save_session
load_session-save_session signature kind req now s client new known =
    let k = key signature kind in
    let row : Row = record {
      request = req;
      active = true;
      expires_at = now + hour;
      created_at = now;
    } in
    let found : lookup k (insert k (upserted row (lookup k s.sessions)) s.sessions) ≡ some row =
      ground (
        arith,
        lookup-insert k k (upserted row (lookup k s.sessions)) s.sessions,
        key_beq_iff k k,
        new,
      ) in
    rw (found, load_session) (rw known refl)

-- After a revocation, a token of that kind and request is refused as inactive, and every other
-- session is loaded as before.
pub load_session-revoke :
    (kind : SessionType) (request_id : String) (signature : String) (other : SessionType)
    (s : Store)
    → load_session signature other (revoke kind request_id s)
      ≡ elim (lookup (key signature other) s.sessions) [
        | none ↦ inr not_found
        | some row ↦
            if is_of kind request_id (key signature other) row
            then inr inactive_token
            else load_session signature other s
      ]
unfolding load_session revoke
load_session-revoke kind request_id signature other s =
    elim (Option-cases (lookup (key signature other) s.sessions)) [
      | inl missing ↦ ground (
        arith,
        lookup-update_rows (is_of kind request_id) deactivate (key signature other) s.sessions,
      )
      | inr (row, found) ↦ ground (
        arith,
        lookup-update_rows (is_of kind request_id) deactivate (key signature other) s.sessions,
      )
    ]

-- An authorization code that was invalidated is never loaded again: it is refused as inactive, or
-- as unknown where it was not there.
pub load_session-invalidate :
    (code : String) (s : Store)
    → load_session code authorize_code (invalidate_authorize_code code s) ≡ (
        if is_some (lookup (key code authorize_code) s.sessions)
        then inr inactive_token
        else inr not_found)
unfolding load_session invalidate_authorize_code
load_session-invalidate code s =
    let k = key code authorize_code in
    let after = lookup-update_rows (λ j row. j == k) deactivate k s.sessions in
    elim (Option-cases (lookup k s.sessions)) [
      | inl missing ↦ ground (arith, after, key_beq_iff k k)
      | inr (row, found) ↦ ground (arith, after, key_beq_iff k k)
    ]
