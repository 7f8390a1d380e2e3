-- ===== src/ApiKeys.antt =====
-- apps/api/src/apikeys/apikeys.service.ts. The random token and SHA-256 are arguments.
pub mod Lifecycle
use justmail.Prelude.{false}
use justmail.Prelude.{
  ℕ, Bool, not, ◌&&◌, List, [], ◌∷◌, ◌++◌, Option, none, some, String, Text, text_eq, take, ltb,
  ◌==◌, Result, ok, err, unauthorized, not_found, server_error, ◌>>=◌, ◌>>◌, throw_if,
}
use justmail.Prelude.Table.{select, modify, first?, has, newest}
use justmail.Store.{admin, KeyRow, Db, Principal}
use justmail.Orgs.{require_role, is_none}
use justmail.Orgs.Members.{user_event}

-- `ApiKeyPrincipal`
pub record ApiKeyPrincipal : Type 0 where
  pub key_id : ℕ
  pub org_id : ℕ
  pub scopes : List String

-- `list`
unfoldable pub list : ℕ → ℕ → ℕ → Db → Result (List KeyRow)
list now org user db = do
  require_role now org user admin db
  ok (newest (select (λ k. k.org_id == org) db.keys))

-- `key_hash = $1`
abbrev pub hashed : Text → KeyRow → Bool
hashed hash k = text_eq k.key_hash hash

abbrev pub new_key : ℕ → ℕ → ℕ → ℕ → Text → Text → Text → List String → Option ℕ → KeyRow
new_key now id org user name prefix hash scopes expires_at = record {
  id = id;
  org_id = org;
  name = name;
  key_prefix = prefix;
  key_hash = hash;
  scopes = scopes;
  last_used_at = none;
  expires_at = expires_at;
  created_by = some user;
  created_at = now;
  revoked_at = none;
}

-- `create`: the row, and the token that is shown this once. No handler answers a hash that the
-- unique column has already.
unfoldable pub create :
    (Text → Text)
    → ℕ
    → ℕ
    → Text
    → Principal
    → ℕ
    → Text
    → List String
    → Option ℕ
    → Db
    → Result ((KeyRow × Text) × Db)
create sha256 now id token p org name scopes expires_at db = do
  require_role now org p.user_id admin db
  let hash = sha256 token
  throw_if (has (hashed hash) db.keys) (server_error "duplicate key")
  let row = new_key now id org p.user_id name (take 10 token) hash scopes expires_at
  ok (
    (row, token),
    user_event org p.user_id "apikey.create" "api_key" id
        (record db { keys = db.keys ++ row ∷ [] }),
  )

abbrev pub revocable : ℕ → ℕ → KeyRow → Bool
revocable org id k = k.id == id && k.org_id == org && is_none k.revoked_at

abbrev pub revoked : ℕ → KeyRow → KeyRow
revoked now k = record k { revoked_at = some now }

-- `revoke`
unfoldable pub revoke : ℕ → Principal → ℕ → ℕ → Db → Result Db
revoke now p org id db = do
  require_role now org p.user_id admin db
  throw_if (not (has (revocable org id) db.keys)) (not_found "Key not found")
  ok (
      user_event org p.user_id "apikey.revoke" "api_key" id
        (record db { keys = modify (revocable org id) (revoked now) db.keys }))

-- `key.expires_at && key.expires_at.getTime() < Date.now()`
abbrev pub is_past : ℕ → Option ℕ → Bool
is_past now none = false
is_past now (some t) = ltb t now

abbrev pub touch : ℕ → ℕ → Db → Db
touch now id db = record db {
  keys = modify (λ k. k.id == id) (λ k. record k { last_used_at = some now }) db.keys;
}

abbrev pub admit : ℕ → Text → Db → Option KeyRow → Result (ApiKeyPrincipal × Db)
admit now hash db none = err (unauthorized "Invalid API key")
admit now hash db (some k) = do
  throw_if (not (text_eq k.key_hash hash)) (unauthorized "Invalid API key")
  throw_if (not (is_none k.revoked_at)) (unauthorized "API key revoked")
  throw_if (is_past now k.expires_at) (unauthorized "API key expired")
  ok (record { key_id = k.id; org_id = k.org_id; scopes = k.scopes }, touch now k.id db)

-- `resolve`
unfoldable pub resolve : (Text → Text) → ℕ → Text → Db → Result (ApiKeyPrincipal × Db)
resolve sha256 now token db =
    let hash = sha256 token in admit now hash db (first? (hashed hash) db.keys)
