-- ===== src/Scim/Groups.antt =====
-- The groups of apps/api/src/scim/scim.service.ts, and the roles that follow from them. `lower_case` is
-- JavaScript's `toLowerCase`.
use justmail.Prelude.{not}
use justmail.Prelude.{server_error}
use justmail.Prelude.{
  ℕ, Bool, true, ◌&&◌, List, [], ◌∷◌, ◌++◌, map, Option, none, some, Text, codes, text_eq, ◌==◌,
  if◌then◌else◌, Result, ok, err, not_found, conflict, ◌>>=◌, ◌>>◌, throw_if,
}
use justmail.Prelude.Table.{select, exclude, modify, first?, has}
use justmail.Prelude.Texts.{to_lower, trim, starts_with}
use justmail.Store.{Role, ScimGroupRow, Db}
use justmail.Invites.{upsert}
use justmail.Ldap.{resolve_role}
use justmail.Scim.Wire.{
  Json, ScimGroup, PatchOp, or, truthy, parse_eq_filter, member_values, member_from_path,
  lowered_path, value_display_name, is_nothing,
}
use justmail.Scim.{ScimContext, ListParams, list_response}
use justmail.Scim.Changes.{or_old}
use justmail.Scim.Rows.{
  in_scim_group, member_user_ids, names_of, set_members, add_members, remove_members,
}

abbrev pub group_at : ℕ → ℕ → ScimGroupRow → Bool
group_at org id g = g.id == id && g.org_id == org

abbrev pub group_or_throw : Option ScimGroupRow → Result ScimGroupRow
group_or_throw none = err (not_found "Group not found")
group_or_throw (some g) = ok g

-- `loadGroup`
unfoldable pub load_group : ScimContext → Option ℕ → Db → Result ScimGroupRow
load_group ctx none db = err (not_found "Group not found")
load_group ctx (some id) db = group_or_throw (first? (group_at ctx.org_id id) db.scim_groups)

abbrev pub named_group : Option (Text × Text) → ScimGroupRow → Bool
named_group none g = true
named_group (some (attr, value)) g =
    if text_eq attr (codes "displayName")
    then text_eq (to_lower g.display_name) (to_lower value)
    else true

-- `listGroups`
abbrev pub list_groups : ScimContext → ListParams → Db → (ℕ × ℕ) × List ScimGroupRow
list_groups ctx params db =
    list_response
      (select (λ g. g.org_id == ctx.org_id && named_group (parse_eq_filter params.filter) g)
        db.scim_groups)
      params

abbrev pub group_named : ℕ → Text → ScimGroupRow → Bool
group_named org name g = g.org_id == org && text_eq (to_lower g.display_name) name

abbrev pub new_scim_group : ℕ → ℕ → Option Text → Text → ScimGroupRow
new_scim_group id org external_id name = record {
  id = id;
  org_id = org;
  external_id = external_id;
  display_name = name;
}

abbrev pub set_display : Text → ScimGroupRow → ScimGroupRow
set_display name g = record g { display_name = name }

abbrev pub rename_group : ℕ → Text → Db → Db
rename_group group name db = record db {
  scim_groups = modify (λ g. g.id == group) (set_display name) db.scim_groups;
}

-- An operation on `members`: the accounts that it touches, and the tables.
abbrev pub patch_members :
    (Json → Text) → (Text → Option ℕ) → ScimContext → ℕ → PatchOp → Db → List ℕ × Db
patch_members to_text uuid_of ctx group op db =
    let name = to_lower op.op in
    let values = map uuid_of (member_values to_text op.value) in
    if text_eq name (codes "add")
    then add_members ctx group values db
    else if text_eq name (codes "remove")
    then remove_members ctx group
        (elim (member_from_path op.path) [ none ↦ values | some target ↦ map uuid_of target ]) db
    else if text_eq name (codes "replace")
    then (let next = set_members ctx group values db in
        (member_user_ids group db ++ next.0, next.1))
    else ([], db)

-- The unique index on the organization and the lowered name, for the row of `group`.
abbrev pub name_taken : ScimContext → ℕ → Text → Db → Bool
name_taken ctx group name db =
    has (λ g. not (g.id == group) && group_named ctx.org_id (to_lower name) g) db.scim_groups

abbrev pub patch_name : ScimContext → ℕ → Option Text → Db → Result (List ℕ × Db)
patch_name ctx group none db = ok ([], db)
patch_name ctx group (some name) db =
    if name_taken ctx group name db
    then err (server_error "duplicate key")
    else ok (member_user_ids group db, rename_group group name db)

abbrev pub patch_group_op :
    (Json → Text) → (Text → Option ℕ) → ScimContext → ℕ → PatchOp → Db → Result (List ℕ × Db)
patch_group_op to_text uuid_of ctx group op db =
    if starts_with (lowered_path op) (codes "members")
    then ok (patch_members to_text uuid_of ctx group op db)
    else patch_name ctx group (value_display_name op) db

unfoldable pub patch_group_ops :
    (Json → Text) → (Text → Option ℕ) → ScimContext → ℕ → List PatchOp → Db → Result (List ℕ × Db)
patch_group_ops to_text uuid_of ctx group [] db = ok ([], db)
patch_group_ops to_text uuid_of ctx group (op ∷ ops) db = do
  first ← patch_group_op to_text uuid_of ctx group op db
  rest ← patch_group_ops to_text uuid_of ctx group ops first.1
  ok (first.0 ++ rest.0, rest.1)

abbrev pub replaced_group : ScimGroup → ScimGroupRow → ScimGroupRow
replaced_group body g = record g {
  display_name = trim (or body.display_name []);
  external_id = or_old body.external_id g.external_id;
}

abbrev pub put_group : ScimGroup → ℕ → Db → Db
put_group body group db =
    if truthy body.display_name
    then record db {
      scim_groups = modify (λ g. g.id == group) (replaced_group body) db.scim_groups;
    }
    else db

-- The rows of a new group: the accounts of its members, and the tables.
abbrev pub insert_group : (Text → Option ℕ) → ScimContext → ℕ → ScimGroup → Db → List ℕ × Db
insert_group uuid_of ctx id body db =
    let name = trim (or body.display_name []) in
    set_members ctx id (map uuid_of body.members) (record db {
      scim_groups = db.scim_groups ++ new_scim_group id ctx.org_id body.external_id name ∷ [];
    })

module _ (lower_case : Text → Text) where
  -- The role that the groups of an account give it.
  abbrev pub role_of : ScimContext → ℕ → Db → Role
  role_of ctx user db =
      resolve_role lower_case (names_of ctx.org_id user db) ctx.config.group_role_map
        ctx.config.default_role

  -- `recomputeRoles`; an account that is named twice gets the same role twice.
  unfoldable pub recompute_roles : ScimContext → List ℕ → Db → Db
  recompute_roles ctx [] db = db
  recompute_roles ctx (user ∷ users) db =
      recompute_roles ctx users
        (record db { members = upsert ctx.org_id user (role_of ctx user db) db.members })

  -- `createGroup`
  unfoldable pub create_group :
      (Text → Option ℕ) → ScimContext → ℕ → ScimGroup → Db → Result (ScimGroupRow × Db)
  create_group uuid_of ctx id body db = do
    let name = trim (or body.display_name [])
    throw_if (is_nothing name) (conflict "displayName is required")
    throw_if (has (group_named ctx.org_id (to_lower name)) db.scim_groups) (conflict "Group exists")
    let joined = insert_group uuid_of ctx id body db
    ok (new_scim_group id ctx.org_id body.external_id name, recompute_roles ctx joined.0 joined.1)

  -- `patchGroup`
  unfoldable pub patch_group :
      (Json → Text)
      → (Text → Option ℕ)
      → ScimContext
      → Option ℕ
      → List PatchOp
      → Db
      → Result (ScimGroupRow × Db)
  patch_group to_text uuid_of ctx id ops db = do
    g ← load_group ctx id db
    next ← patch_group_ops to_text uuid_of ctx g.id ops db
    let db' = recompute_roles ctx next.0 next.1
    written ← load_group ctx id db'
    ok (written, db')

  -- `replaceGroup`
  unfoldable pub replace_group :
      (Text → Option ℕ) → ScimContext → Option ℕ → ScimGroup → Db → Result (ScimGroupRow × Db)
  replace_group uuid_of ctx id body db = do
    g ← load_group ctx id db
    throw_if (truthy body.display_name && name_taken ctx g.id (trim (or body.display_name [])) db)
        (server_error "duplicate key")
    let named = put_group body g.id db
    let next = set_members ctx g.id (map uuid_of body.members) named
    let db' = recompute_roles ctx (member_user_ids g.id named ++ next.0) next.1
    written ← load_group ctx id db'
    ok (written, db')

  -- `deleteGroup`; the memberships go with the group.
  unfoldable pub delete_group : ScimContext → Option ℕ → Db → Result Db
  delete_group ctx id db = do
    g ← load_group ctx id db
    ok (
        recompute_roles ctx (member_user_ids g.id db) (record db {
          scim_groups = exclude (λ x. x.id == g.id) db.scim_groups;
          scim_members = exclude (in_scim_group g.id) db.scim_members;
        }))
