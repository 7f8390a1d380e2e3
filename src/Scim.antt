-- ===== src/Scim.antt =====
-- apps/api/src/scim/scim.service.ts: the control plane of an organization and the bearer token.
-- SHA-256 and the random token are arguments.
pub mod Wire
pub mod Users
pub mod Changes
pub mod Rows
pub mod Groups
pub mod Tokens
pub mod Roles
pub mod Outside
pub mod Isolation
pub mod Accounts
pub mod Names
pub mod Joined
pub mod Owners
use justmail.Prelude.{
  ℕ, ◌+◌, ◌-◌, Bool, true, false, not, ◌&&◌, ◌||◌, List, [], ◌∷◌, ◌++◌, Option, none, some, String,
  Text, codes, text_eq, length, take, drop, max, ◌==◌, if◌then◌else◌, Result, ok, err, unauthorized,
  not_found, conflict, server_error, ◌>>=◌, ◌>>◌, throw_if,
}
use justmail.Prelude.Table.{select, exclude, modify, first?, has, count}
use justmail.Prelude.Texts.{to_lower, trim, includes}
use justmail.Store.{
  Role, admin, member, UserStatus, user_active, user_suspended, UserRow, MemberRow, ScimConfigRow,
  ScimUserRow, Db, Principal, member_at, log,
}
use justmail.Orgs.{require_role}
use justmail.Orgs.Members.{user_event, new_member}
use justmail.Scim.Wire.{
  Json, object, text, ScimUser, PatchOp, or, truthy, primary_email, display_name_of, to_bool,
  field_of, text_value, parse_eq_filter, lowered_path, is_nothing,
}

abbrev pub config_of : ℕ → ScimConfigRow → Bool
config_of org c = c.org_id == org

-- The defaults of the columns.
abbrev pub new_config : ℕ → ScimConfigRow
new_config org = record {
  org_id = org;
  enabled = true;
  token_hash = none;
  token_prefix = none;
  default_role = member;
  group_role_map = [];
  deactivate = true;
  last_request_at = none;
}

-- `ensureConfig`
unfoldable pub ensure_config : ℕ → Db → Db
ensure_config org db =
    if has (config_of org) db.scim_configs
    then db
    else record db { scim_configs = db.scim_configs ++ new_config org ∷ [] }

abbrev pub config_or_new : ℕ → Option ScimConfigRow → ScimConfigRow
config_or_new org none = new_config org
config_or_new org (some c) = c

-- `getConfig`; the hash of the token is not shown.
unfoldable pub get_config : ℕ → ℕ → ℕ → Db → Result (ScimConfigRow × Db)
get_config now org user db = do
  require_role now org user admin db
  let db' = ensure_config org db
  ok (config_or_new org (first? (config_of org) db'.scim_configs), db')

-- `ScimConfigRequest`
pub record ScimConfigRequest : Type 0 where
  pub enabled : Bool
  pub default_role : Role
  pub group_role_map : List (Text × Role)
  pub deactivate : Bool

abbrev pub configured : ScimConfigRequest → ScimConfigRow → ScimConfigRow
configured req c = record c {
  enabled = req.enabled;
  default_role = req.default_role;
  group_role_map = req.group_role_map;
  deactivate = req.deactivate;
}

abbrev pub with_config : ℕ → (ScimConfigRow → ScimConfigRow) → Db → Db
with_config org f db = record db { scim_configs = modify (config_of org) f db.scim_configs }

-- `updateConfig`
unfoldable pub update_config :
    ℕ → Principal → ℕ → ScimConfigRequest → Db → Result (ScimConfigRow × Db)
update_config now p org req db = do
  require_role now org p.user_id admin db
  let written = with_config org (configured req) (ensure_config org db)
  ok (
    config_or_new org (first? (config_of org) written.scim_configs),
    user_event org p.user_id "scim.config.update" "scim_config" org written,
  )

abbrev pub set_token : Option Text → Option Text → ScimConfigRow → ScimConfigRow
set_token hash prefix c = record c { token_hash = hash; token_prefix = prefix }

-- `generateToken`: the token is shown this once.
unfoldable pub generate_token : (Text → Text) → ℕ → Text → Principal → ℕ → Db → Result (Text × Db)
generate_token sha256 now token p org db = do
  require_role now org p.user_id admin db
  ok (
    token,
    user_event org p.user_id "scim.token.rotate" "scim_config" org (
        with_config org (set_token (some (sha256 token)) (some (take 12 token)))
          (ensure_config org db)),
  )

-- `revokeToken`
unfoldable pub revoke_token : ℕ → Principal → ℕ → Db → Result Db
revoke_token now p org db = do
  require_role now org p.user_id admin db
  ok (
      user_event org p.user_id "scim.token.revoke" "scim_config" org
        (with_config org (set_token none none) db))

-- `userCount`
abbrev pub user_count : ℕ → Db → ℕ
user_count org db = count (λ u. u.org_id == org) db.scim_users

-- `ScimContext`
pub record ScimContext : Type 0 where
  pub org_id : ℕ
  pub config : ScimConfigRow

abbrev pub token_of : ScimConfigRow → Option Text
token_of c = if c.enabled then c.token_hash else none

abbrev pub seen_at : ℕ → ScimConfigRow → ScimConfigRow
seen_at now c = record c { last_request_at = some now }

abbrev pub admitted : ℕ → ℕ → Text → Db → Option ScimConfigRow → Result (ScimContext × Db)
admitted now org hash db none = err (unauthorized "SCIM not enabled")
admitted now org hash db (some c) = elim (token_of c) [
  | none ↦ err (unauthorized "SCIM not enabled")
  | some [] ↦ err (unauthorized "SCIM not enabled")
  | some (d ∷ stored) ↦
      if text_eq (d ∷ stored) hash
      then ok (record { org_id = org; config = c }, with_config org (seen_at now) db)
      else err (unauthorized "Invalid SCIM token")
]

-- `authenticate`
unfoldable pub authenticate : (Text → Text) → ℕ → ℕ → Text → Db → Result (ScimContext × Db)
authenticate sha256 now org token db =
    admitted now org (sha256 token) db (first? (config_of org) db.scim_configs)

-- `ListParams`
pub record ListParams : Type 0 where
  pub filter : Option Text
  pub start_index : Option ℕ
  pub count : Option ℕ

-- `listResponse`: the total, the first index and the page.
unfoldable pub list_response {ℓ} : {A : Type ℓ} → List A → ListParams → (ℕ × ℕ) × List A
list_response resources params =
    let first = max 1 (or params.start_index 1) in
    let size = or params.count (length resources) in
    ((length resources, first), take size (drop (first - 1) resources))
