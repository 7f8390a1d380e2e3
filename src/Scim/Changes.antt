-- ===== src/Scim/Changes.antt =====
-- How apps/api/src/scim/scim.service.ts replaces, patches and deletes a provisioned user.
use justmail.Prelude.{
  ℕ, true, not, ◌&&◌, List, [], ◌∷◌, Option, none, some, Text, codes, text_eq, ◌==◌, if◌then◌else◌,
  Result, ok, server_error, ◌>>=◌, ◌>>◌, throw_if,
}
use justmail.Prelude.Table.{exclude, modify, has}
use justmail.Prelude.Texts.{to_lower, trim}
use justmail.Store.{UserRow, ScimUserRow, Db}
use justmail.Scim.Wire.{
  Json, object, ScimUser, PatchOp, or, truthy, display_name_of, to_bool, field_of, text_value,
  lowered_path,
}
use justmail.Scim.{ScimContext}
use justmail.Scim.Users.{load_user, named_user, apply_active, suspend, system_event}

abbrev pub or_old : Option Text → Option Text → Option Text
or_old none old = old
or_old (some new) old = some new

abbrev pub replaced : ScimUser → ScimUserRow → ScimUserRow
replaced body u = record u {
  external_id = or_old body.external_id u.external_id;
  user_name = trim (or body.user_name u.user_name);
  active = or body.active true;
  raw = display_name_of body;
}

abbrev pub set_name : Text → UserRow → UserRow
set_name name u = record u { name = name }

abbrev pub renamed : ℕ → Text → List UserRow → List UserRow
renamed id [] us = us
renamed id (c ∷ name) us = modify (λ u. u.id == id) (set_name (c ∷ name)) us

abbrev pub put_user : ScimUserRow → List ScimUserRow → List ScimUserRow
put_user row us = modify (λ u. u.id == row.id) (λ u. row) us

-- `replaceUser`
unfoldable pub replace_user : ScimContext → Option ℕ → ScimUser → Db → Result (ScimUserRow × Db)
replace_user ctx id body db = do
  row ← load_user ctx id db
  let next = replaced body row
  throw_if
      (has (λ u. not (u.id == row.id) && named_user ctx.org_id (to_lower next.user_name) u)
        db.scim_users)
      (server_error "duplicate key")
  ok (
    next,
    record db {
      scim_users = put_user next db.scim_users;
      users =
          renamed row.user_id (display_name_of body)
            (apply_active row.user_id next.active db.users);
    },
  )

abbrev pub with_active : Option Json → ScimUserRow → ScimUserRow
with_active none u = u
with_active (some v) u = record u { active = to_bool v }

abbrev pub with_name : Option Text → ScimUserRow → ScimUserRow
with_name none u = u
with_name (some s) u = record u { user_name = s }

abbrev pub with_external : Option Text → ScimUserRow → ScimUserRow
with_external none u = u
with_external (some s) u = record u { external_id = some s }

-- An operation without a path: the fields of its value.
abbrev pub patch_fields : Json → ScimUserRow → ScimUserRow
patch_fields (object fields) u = with_external (text_value (field_of (codes "externalId") fields)) (
    with_name (text_value (field_of (codes "userName") fields))
      (with_active (field_of (codes "active") fields) u))
patch_fields _ u = u

abbrev pub patch_op : PatchOp → ScimUserRow → ScimUserRow
patch_op op u =
    let path = lowered_path op in
    if text_eq (to_lower op.op) (codes "remove")
    then u
    else if text_eq path (codes "active")
    then with_active (some op.value) u
    else if text_eq path (codes "username")
    then with_name (text_value (some op.value)) u
    else if text_eq path (codes "externalid")
    then with_external (text_value (some op.value)) u
    else if truthy op.path
    then u
    else patch_fields op.value u

abbrev pub patch_ops : List PatchOp → ScimUserRow → ScimUserRow
patch_ops [] u = u
patch_ops (op ∷ ops) u = patch_ops ops (patch_op op u)

-- `patchUser`
unfoldable pub patch_user : ScimContext → Option ℕ → List PatchOp → Db → Result (ScimUserRow × Db)
patch_user ctx id ops db = do
  row ← load_user ctx id db
  let next = patch_ops ops row
  throw_if
      (has (λ u. not (u.id == row.id) && named_user ctx.org_id (to_lower next.user_name) u)
        db.scim_users)
      (server_error "duplicate key")
  ok (
    next,
    record db {
      scim_users = put_user next db.scim_users;
      users = apply_active row.user_id next.active db.users;
    },
  )

-- `deleteUser`; the memberships of its groups go with the resource.
unfoldable pub delete_user : ScimContext → Option ℕ → Db → Result Db
delete_user ctx id db = do
  row ← load_user ctx id db
  ok (
      system_event ctx.org_id "scim.user.delete" "user" row.user_id (record db {
        scim_users = exclude (λ u. u.id == row.id) db.scim_users;
        scim_members = exclude (λ m. m.scim_user_id == row.id) db.scim_members;
        users = if ctx.config.deactivate then suspend row.user_id db.users else db.users;
      }))
