-- ===== src/OauthStore/Tests.antt =====
-- server/auth/oauthstore/store.go on two refresh tokens of one request.
use sdk_api.Base.{
  ℕ, ◌+◌, String, ◌≡◌, refl, inr, true, false, none, some, [], ◌∷◌, arith, ==_iff, nat_eq,
  string_eq, if◌then◌else◌, lookup, insert, delete,
}
use sdk_api.Base.Bytes.{bytes_eq, codes}
use sdk_api.OauthStore.{
  refresh_token, key_eq, Request, Row, Client, Store, not_found, inactive_token, key, save_session,
  load_session, update_rows, is_of, revoke, latest_refresh, refresh_keys, rename, rename_all,
  retire_latest, rotate_refresh_token, split_from, split_space,
}
use sdk_api.OauthStore.Sessions.{load_session-revoke}
use sdk_api.OauthStore.Rotation.{rotate_refresh_token_fails}

abbrev app : Client
app = record { hashed_secret = "h"; redirect_uris = []; scopes = codes "a b"; is_public = false }

abbrev empty_store : Store
empty_store = record { sessions = []; clients = ("app", app) ∷ []; jti = [] }

abbrev request : Request
request = record {
  request_id = "r1";
  client_id = "app";
  requested_scopes = "openid" ∷ [];
  granted_scopes = "openid" ∷ [];
  requested_audience = [];
  granted_audience = [];
  session_data = "{}";
  form = "{}";
}

abbrev one_token : Store
one_token = save_session "s1" refresh_token request 7 empty_store

abbrev two_tokens : Store
two_tokens = save_session "s2" refresh_token request 8 one_token

-- The only token of a request is renamed and no longer active; a new session makes it active again.
rotate_test :
    (load_session "s1" refresh_token (rotate_refresh_token "r1" "s2" one_token).0 ≡ inr not_found)
    × (load_session "s2" refresh_token (rotate_refresh_token "r1" "s2" one_token).0
        ≡ inr inactive_token)
    × (split_space (codes "a  b") ≡ codes "a" ∷ codes "b" ∷ [])
unfolding load_session save_session rotate_refresh_token lookup insert delete update_rows
    retire_latest latest_refresh refresh_keys rename_all rename split_from
rotate_test = (refl, refl, refl)

load_session-revoke_example :
    load_session "s1" refresh_token (revoke refresh_token "r1" two_tokens)
    ≡ elim (lookup (key "s1" refresh_token) two_tokens.sessions) [
      | none ↦ inr not_found
      | some row ↦
          if is_of refresh_token "r1" (key "s1" refresh_token) row
          then inr inactive_token
          else load_session "s1" refresh_token two_tokens
    ]
load_session-revoke_example = load_session-revoke refresh_token "r1" "s1" refresh_token two_tokens

abbrev row_at : ℕ → Row
row_at now = record { request = request; active = true; expires_at = now + 3600; created_at = now }

rotate_refresh_token_fails_example : (rotate_refresh_token "r1" "s3" two_tokens).1 ≡ false
unfolding save_session lookup insert
rotate_refresh_token_fails_example =
    rotate_refresh_token_fails "r1" "s3" "s1" "s2" two_tokens (row_at 7) (row_at 8)
      (λ e. ground (arith, ==_iff {K = String} "s1" "s2")) refl refl refl refl
