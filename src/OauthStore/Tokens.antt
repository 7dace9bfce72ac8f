-- ===== src/OauthStore/Tokens.antt =====
-- server/auth/oauthstore/store.go: the operations of each kind of session, and the OpenID Connect
-- sessions, which keep only the client and the session data.
use sdk_api.Base.{
  ℕ, ◌+◌, String, ◌≡◌, refl, sym, ap, ◌∙◌, ◌≢◌, ◌⊎◌, inl, inr, true, false, not, Option, none, some,
  [], ◌==◌, ==_iff, nat_eq, string_eq, if◌then◌else◌, Bool-cases, Map, lookup, insert,
  lookup-insert, lookup-delete,
}
use sdk_api.OauthStore.{
  SessionType, authorize_code, access_token, refresh_token, pkce, oidc, SessionKey, key_eq, Request,
  Row, Store, StoreError, not_found, key, save_session, load_session, delete_session,
}

abbrev pub create_authorize_code_session : String → Request → ℕ → Store → Store
create_authorize_code_session code = save_session code authorize_code

abbrev pub get_authorize_code_session : String → Store → Request ⊎ StoreError
get_authorize_code_session code = load_session code authorize_code

abbrev pub create_access_token_session : String → Request → ℕ → Store → Store
create_access_token_session signature = save_session signature access_token

abbrev pub get_access_token_session : String → Store → Request ⊎ StoreError
get_access_token_session signature = load_session signature access_token

abbrev pub delete_access_token_session : String → Store → Store
delete_access_token_session signature = delete_session signature access_token

abbrev pub create_refresh_token_session : String → Request → ℕ → Store → Store
create_refresh_token_session signature = save_session signature refresh_token

abbrev pub get_refresh_token_session : String → Store → Request ⊎ StoreError
get_refresh_token_session signature = load_session signature refresh_token

abbrev pub delete_refresh_token_session : String → Store → Store
delete_refresh_token_session signature = delete_session signature refresh_token

abbrev pub create_pkce_request_session : String → Request → ℕ → Store → Store
create_pkce_request_session signature = save_session signature pkce

abbrev pub get_pkce_request_session : String → Store → Request ⊎ StoreError
get_pkce_request_session signature = load_session signature pkce

abbrev pub delete_pkce_request_session : String → Store → Store
delete_pkce_request_session signature = delete_session signature pkce

-- A conflict updates session_data and nothing else.
abbrev upserted_oidc : Row → Option Row → Row
upserted_oidc new none = new
upserted_oidc new (some old) = record old {
  request = record old.request { session_data = new.request.session_data };
}

-- The columns that CreateOpenIDConnectSession writes.
abbrev oidc_request : Request → Request
oidc_request req = record {
  request_id = req.request_id;
  client_id = req.client_id;
  requested_scopes = [];
  granted_scopes = [];
  requested_audience = [];
  granted_audience = [];
  session_data = req.session_data;
  form = "";
}

-- `CreateOpenIDConnectSession`; it expires after ten minutes.
unfoldable pub create_open_id_connect_session : String → Request → ℕ → Store → Store
create_open_id_connect_session code req now s =
    let k = key code oidc in
    let new : Row = record {
      request = oidc_request req;
      active = true;
      expires_at = now + 600;
      created_at = now;
    } in
    record s { sessions = insert k (upserted_oidc new (lookup k s.sessions)) s.sessions }

-- `GetOpenIDConnectSession`: an inactive session is not found.
unfoldable pub get_open_id_connect_session : String → Store → Request ⊎ StoreError
get_open_id_connect_session code s = elim (lookup (key code oidc) s.sessions) [
  | none ↦ inr not_found
  | some row ↦
      if not row.active then inr not_found else elim (lookup row.request.client_id s.clients) [
        | none ↦ inr not_found
        | some client ↦ inl (oidc_request row.request)
      ]
]

-- `DeleteOpenIDConnectSession`.
abbrev pub delete_open_id_connect_session : String → Store → Store
delete_open_id_connect_session code = delete_session code oidc

apart :
    (code signature : String) (kind : SessionType)
    → kind ≢ oidc
    → (key code oidc == key signature kind) ≡ false
apart code signature kind other = elim (Bool-cases (key code oidc == key signature kind)) [
  | inl same ↦
      let e = (==_iff (key code oidc) (key signature kind)).0 same in
      absurd (other (sym (ap (λ k. k.kind) e)))
  | inr differs ↦ differs
]

load_session_of_rows :
    (signature : String) (kind : SessionType) (s : Store) (rows : Map SessionKey Row)
    → lookup (key signature kind) rows ≡ lookup (key signature kind) s.sessions
    → load_session signature kind (record s { sessions = rows }) ≡ load_session signature kind s
unfolding load_session
load_session_of_rows signature kind s rows e = rw (e, load_session) refl

-- Neither creating nor deleting the OpenID Connect session of a code changes what is loaded under
-- any other kind.
pub load_session-open_id_connect :
    (code signature : String) (kind : SessionType) (req : Request) (now : ℕ) (s : Store)
    → kind ≢ oidc
    → (load_session signature kind (create_open_id_connect_session code req now s)
        ≡ load_session signature kind s)
      × (load_session signature kind (delete_open_id_connect_session code s)
          ≡ load_session signature kind s)
unfolding load_session create_open_id_connect_session delete_session
load_session-open_id_connect code signature kind req now s other =
    let differs = apart code signature kind other in
    (
      load_session_of_rows signature kind s _
          (lookup-insert (key code oidc) (key signature kind) _ s.sessions ∙ rw differs refl),
      load_session_of_rows signature kind s _
          (lookup-delete (key code oidc) (key signature kind) s.sessions ∙ rw differs refl),
    )
