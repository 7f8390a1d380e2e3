-- ===== src/Scim/Users.antt =====
-- The provisioned users of apps/api/src/scim/scim.service.ts. The comparison of the `citext` column
-- `email` is an argument; the text of an id that a request names has its number already where it is a
-- uuid.
use justmail.Prelude.{
  ℕ, Bool, true, false, not, ◌&&◌, ◌||◌, List, [], ◌∷◌, ◌++◌, Option, none, some, String, Text,
  codes, text_eq, ◌==◌, if◌then◌else◌, Result, ok, err, not_found, conflict, server_error, ◌>>◌,
  throw_if,
}
use justmail.Prelude.Table.{select, modify, first?, has}
use justmail.Prelude.Texts.{to_lower, trim, includes}
use justmail.Store.{
  Role, UserStatus, user_active, user_suspended, UserRow, MemberRow, ScimUserRow, Db, member_at,
  log,
}
use justmail.Orgs.Members.{new_member}
use justmail.Scim.Wire.{ScimUser, or, primary_email, display_name_of, parse_eq_filter, is_nothing}
use justmail.Scim.{ScimContext, ListParams, list_response}

abbrev pub meets : Option (Text × Text) → ScimUserRow → Bool
meets none u = true
meets (some (attr, value)) u =
    if text_eq attr (codes "userName")
    then text_eq (to_lower u.user_name) (to_lower value)
    else if text_eq attr (codes "externalId")
    then (elim u.external_id [ none ↦ false | some e ↦ text_eq e value ])
    else true

-- `listUsers`
abbrev pub list_users : ScimContext → ListParams → Db → (ℕ × ℕ) × List ScimUserRow
list_users ctx params db =
    list_response
      (select (λ u. u.org_id == ctx.org_id && meets (parse_eq_filter params.filter) u)
        db.scim_users)
      params

abbrev pub user_or_throw : Option ScimUserRow → Result ScimUserRow
user_or_throw none = err (not_found "User not found")
user_or_throw (some u) = ok u

abbrev pub scim_user_at : ℕ → ℕ → ScimUserRow → Bool
scim_user_at org id u = u.id == id && u.org_id == org

-- `loadUser`; `none` is a text that is no uuid.
unfoldable pub load_user : ScimContext → Option ℕ → Db → Result ScimUserRow
load_user ctx none db = err (not_found "User not found")
load_user ctx (some id) db = user_or_throw (first? (scim_user_at ctx.org_id id) db.scim_users)

-- `INSERT INTO org_members … ON CONFLICT (org_id, user_id) DO NOTHING`
abbrev pub join_org : ℕ → ℕ → Role → List MemberRow → List MemberRow
join_org org user role ms =
    if has (member_at org user) ms then ms else ms ++ new_member org user role ∷ []

abbrev pub set_user_status : UserStatus → UserRow → UserRow
set_user_status status u = record u { status = status }

abbrev pub suspend : ℕ → List UserRow → List UserRow
suspend id us = modify (λ u. u.id == id) (set_user_status user_suspended) us

abbrev pub is_suspended : UserStatus → Bool
is_suspended user_suspended = true
is_suspended _ = false

-- `applyActive`
unfoldable pub apply_active : ℕ → Bool → List UserRow → List UserRow
apply_active id true us =
    modify (λ u. u.id == id && is_suspended u.status) (set_user_status user_active) us
apply_active id false us = suspend id us

abbrev pub new_local : ℕ → Text → Text → UserRow
new_local id email name = record {
  id = id;
  email = email;
  name = name;
  password_hash = none;
  status = user_active;
}

-- `resolveLocalUser`: the account with the address, whoever it belongs to, or a new one.
abbrev pub local_user : ℕ → Text → Text → Option UserRow → List UserRow → ℕ × List UserRow
local_user id email name (some u) us = (u.id, us)
local_user id email name none us = (id, us ++ new_local id email name ∷ [])

abbrev pub named_user : ℕ → Text → ScimUserRow → Bool
named_user org name u = u.org_id == org && text_eq (to_lower u.user_name) name

abbrev pub system_event : ℕ → String → String → ℕ → Db → Db
system_event org action target_type target = log (record {
  org_id = org;
  actor_id = none;
  action = action;
  target_type = target_type;
  target_id = some target;
})

abbrev pub new_scim_user : ℕ → ℕ → ℕ → Text → ScimUser → ScimUserRow
new_scim_user id org user name body = record {
  id = id;
  org_id = org;
  user_id = user;
  external_id = body.external_id;
  user_name = name;
  active = or body.active true;
  raw = display_name_of body;
}

module _ (same_email : Text → Text → Bool) where
  -- The transaction of `createUser`, where `id` and `user` are fresh.
  abbrev pub provision : ScimContext → ℕ → ℕ → Text → Text → ScimUser → Db → ScimUserRow × Db
  provision ctx id user name email body db =
      let local =
        local_user user email (display_name_of body)
          (first? (λ u. same_email u.email email) db.users) db.users in
      let row = new_scim_user id ctx.org_id local.0 name body in
      (
        row,
        record db {
          users = if row.active then local.1 else suspend local.0 local.1;
          members = join_org ctx.org_id local.0 ctx.config.default_role db.members;
          scim_users = db.scim_users ++ row ∷ [];
        },
      )

  -- `createUser`; a second resource for one account fails on the unique key (org_id, user_id).
  unfoldable pub create_user : ScimContext → ℕ → ℕ → ScimUser → Db → Result (ScimUserRow × Db)
  create_user ctx id user body db = do
    let name = trim (or body.user_name [])
    let email = or (primary_email body) name
    throw_if (is_nothing name || not (includes b'@' email)) (conflict "userName must be an email")
    throw_if (has (named_user ctx.org_id (to_lower name)) db.scim_users)
        (conflict "User already exists")
    let next = provision ctx id user name email body db
    throw_if (has (λ u. u.org_id == ctx.org_id && u.user_id == next.0.user_id) db.scim_users)
        (server_error "duplicate key")
    ok (next.0, system_event ctx.org_id "scim.user.create" "user" next.0.user_id next.1)
