-- ===== src/OauthStore.antt =====
-- server/auth/oauthstore/store.go: the OAuth sessions over a table that (signature, type) identifies,
-- as its upserts need. The database answers every statement; a time is a number; the JSON columns
-- are the values that they encode.
pub mod Sessions
pub mod Rotation
pub mod Tokens
mod Tests
use sdk_api.Base.{
  ℕ, subst, zero, suc, ◌+◌, ◌-◌, ◌*◌, ◌≤◌, ◌<◌, ◌/◌, ◌%◌, String, ◌≡◌, refl, sym, ap, ◌∙◌, ◌≢◌, ◌↔◌,
  ◌⊎◌, inl, inr, Bool, true, false, not, ◌&&◌, ◌||◌, Option, none, some, List, [], ◌∷◌, ◌++◌, map,
  arith, ltb, leb, nat_beq, nat_beq_iff, Eq, ◌==◌, ==_iff, nat_eq, string_eq, if◌then◌else◌,
  Bool-cases, Option-cases, is_some, length, get_elem?, set, take, length-append, length-set,
  get_elem?-append_last, get_elem?-append_left, get_elem?-set_ne, get_elem?-set_self, All, Map,
  lookup, insert, delete, lookup-insert, lookup-delete, contains, contains-cons_self,
  contains-cons_of_contains, contains-cons_cases, IsMap, retain, kept, insert-IsMap, delete-IsMap,
  lookup-retain, retain-IsMap,
}
use sdk_api.Base.Bytes.{Bytes, bytes_eq}

pub data SessionType : Type 0 where
  authorize_code access_token refresh_token pkce oidc : SessionType

abbrev pub type_beq : SessionType → SessionType → Bool
type_beq authorize_code authorize_code = true
type_beq access_token access_token = true
type_beq refresh_token refresh_token = true
type_beq pkce pkce = true
type_beq oidc oidc = true
type_beq _ _ = false

-- The key of a row.
pub record SessionKey : Type 0 where
  pub signature : String
  pub kind : SessionType

abbrev pub key_beq : SessionKey → SessionKey → Bool
key_beq j k = j.signature == k.signature && type_beq j.kind k.kind

type_beq_iff : (a b : SessionType) → (type_beq a b ≡ true) ↔ (a ≡ b)
type_beq_iff a b = ground arith

pub key_beq_iff : (j k : SessionKey) → (key_beq j k ≡ true) ↔ (j ≡ k)
key_beq_iff j k = ground (arith, ==_iff j.signature k.signature, type_beq_iff j.kind k.kind)

instance abbrev pub key_eq : Eq SessionKey
key_eq = record { is_same = key_beq; is_same_iff = key_beq_iff }

-- What saveSession reads of a fosite.Requester, and loadSession makes of a row.
pub record Request : Type 0 where
  pub request_id : String
  pub client_id : String
  pub requested_scopes : List String
  pub granted_scopes : List String
  pub requested_audience : List String
  pub granted_audience : List String
  pub session_data : String
  pub form : String

pub record Row : Type 0 where
  pub request : Request
  pub active : Bool
  pub expires_at : ℕ
  pub created_at : ℕ

-- A row of oauth_clients.
pub record Client : Type 0 where
  pub hashed_secret : String
  pub redirect_uris : List String
  pub scopes : Bytes
  pub is_public : Bool

pub record Store : Type 0 where
  pub sessions : Map SessionKey Row
  pub clients : Map String Client
  pub jti : Map String ℕ

-- fosite.ErrNotFound, ErrInactiveToken, ErrInvalidClient and ErrJTIKnown.
pub data StoreError : Type 0 where
  not_found inactive_token invalid_client jti_known : StoreError

abbrev pub key : String → SessionType → SessionKey
key signature kind = record { signature = signature; kind = kind }

abbrev pub hour : ℕ
hour = 3600

-- A conflict on the key updates session_data and active, and keeps the rest of the old row.
abbrev pub upserted : Row → Option Row → Row
upserted new none = new
upserted new (some old) = record old {
  request = record old.request { session_data = new.request.session_data };
  active = new.active;
}

-- `saveSession`.
unfoldable pub save_session : String → SessionType → Request → ℕ → Store → Store
save_session signature kind req now s =
    let k = key signature kind in
    let new : Row = record {
      request = req;
      active = true;
      expires_at = now + hour;
      created_at = now;
    } in
    record s { sessions = insert k (upserted new (lookup k s.sessions)) s.sessions }

-- `loadSession`.
unfoldable pub load_session : String → SessionType → Store → Request ⊎ StoreError
load_session signature kind s = elim (lookup (key signature kind) s.sessions) [
  | none ↦ inr not_found
  | some row ↦
      if not row.active then inr inactive_token else elim (lookup row.request.client_id s.clients) [
        | none ↦ inr not_found
        | some client ↦ inl row.request
      ]
]

-- `UPDATE oauth_sessions SET … WHERE …`, where no key changes.
unfoldable pub update_rows :
    (SessionKey → Row → Bool) → (Row → Row) → Map SessionKey Row → Map SessionKey Row
update_rows where_ change [] = []
update_rows where_ change ((k, row) ∷ rows) =
    (k, if where_ k row then change row else row) ∷ update_rows where_ change rows

abbrev pub deactivate : Row → Row
deactivate row = record row { active = false }

-- `InvalidateAuthorizeCodeSession`.
unfoldable pub invalidate_authorize_code : String → Store → Store
invalidate_authorize_code code s = record s {
  sessions = update_rows (λ k row. k == key code authorize_code) deactivate s.sessions;
}

-- `DeleteAccessTokenSession` and the like.
unfoldable pub delete_session : String → SessionType → Store → Store
delete_session signature kind s = record s { sessions = delete (key signature kind) s.sessions }

abbrev pub is_of : SessionType → String → SessionKey → Row → Bool
is_of kind request_id k row = row.request.request_id == request_id && type_beq k.kind kind

-- `RevokeRefreshToken` and `RevokeAccessToken`.
unfoldable pub revoke : SessionType → String → Store → Store
revoke kind request_id s = record s {
  sessions = update_rows (is_of kind request_id) deactivate s.sessions;
}

-- The latest active refresh token of a request; of two made at one time, either may be found.
unfoldable pub latest_refresh : String → Map SessionKey Row → Option (SessionKey × Row)
latest_refresh request_id [] = none
latest_refresh request_id ((k, row) ∷ rows) =
    let later = latest_refresh request_id rows in
    if is_of refresh_token request_id k row && row.active
    then elim later [
      | none ↦ some (k, row)
      | some (j, other) ↦
          if leb other.created_at row.created_at then some (k, row) else some (j, other)
    ]
    else later

-- The keys of the refresh tokens of a request.
unfoldable pub refresh_keys : String → Map SessionKey Row → List SessionKey
refresh_keys request_id [] = []
refresh_keys request_id ((k, row) ∷ rows) =
    let rest = refresh_keys request_id rows in
    if is_of refresh_token request_id k row then k ∷ rest else rest

-- One row moves to another key; where a row has that key already, the statement fails.
unfoldable pub rename : SessionKey → SessionKey → Map SessionKey Row → Option (Map SessionKey Row)
rename old new rows = elim (lookup old rows) [
  | none ↦ some rows
  | some row ↦
      let moved = insert new row (delete old rows) in
      if old == new then some rows else if is_some (lookup new rows) then none else some moved
]

-- The second update of RotateRefreshToken, on the keys that it meets: it fails where two rows would
-- have one key.
unfoldable pub rename_all :
    List SessionKey → SessionKey → Map SessionKey Row → Option (Map SessionKey Row)
rename_all [] new rows = some rows
rename_all (k ∷ []) new rows = rename k new rows
rename_all (k ∷ j ∷ ks) new rows = none

-- The first update of RotateRefreshToken: every row with the signature that was found.
unfoldable pub retire_latest : String → Map SessionKey Row → Map SessionKey Row
retire_latest request_id rows = elim (latest_refresh request_id rows) [
  | none ↦ rows
  | some (old, row) ↦
      if old.signature == ""
      then rows
      else update_rows (λ k r. k.signature == old.signature) deactivate rows
]

-- `RotateRefreshToken`: the store, and whether it succeeded.
unfoldable pub rotate_refresh_token : String → String → Store → Store × Bool
rotate_refresh_token request_id signature s =
    let rows = retire_latest request_id s.sessions in
    let renamed = rename_all (refresh_keys request_id rows) (key signature refresh_token) rows in
    elim renamed [
      | none ↦ (record s { sessions = rows }, false)
      | some rows' ↦ (record s { sessions = rows' }, true)
    ]

-- `Authenticate`; `verify` is auth.VerifyPassword.
unfoldable pub authenticate :
    (String → String → Bool) → String → String → Store → String ⊎ StoreError
authenticate verify client_id secret s = elim (lookup client_id s.clients) [
  | none ↦ inr not_found
  | some client ↦ if verify client.hashed_secret secret then inl client_id else inr invalid_client
]

-- `ClientAssertionJWTValid` and `SetClientAssertionJWT`, which keeps a row that is there.
unfoldable pub assertion_valid : String → ℕ → Store → Option StoreError
assertion_valid jti now s = elim (lookup jti s.jti) [
  | none ↦ none
  | some expires ↦ if ltb now expires then some jti_known else none
]

unfoldable pub set_assertion : String → ℕ → Store → Store
set_assertion jti expires s =
    if is_some (lookup jti s.jti) then s else record s { jti = insert jti expires s.jti }

-- `splitSpace`: the fields between spaces, with the field gathered so far.
unfoldable pub split_from : Bytes → Bytes → List Bytes
split_from [] [] = []
split_from [] (c ∷ field) = (c ∷ field) ∷ []
split_from (b ∷ s) field =
    let longer = split_from s (field ++ b ∷ []) in
    let next = split_from s [] in
    let ended : List Bytes = elim field [ [] ↦ next | c ∷ rest ↦ (c ∷ rest) ∷ next ] in
    if b == b' ' then ended else longer

abbrev pub split_space : Bytes → List Bytes
split_space s = split_from s []
