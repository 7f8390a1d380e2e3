-- ===== src/Scim/Outside.antt =====
-- What the member rows of the groups of apps/api/src/scim/scim.service.ts leave as it is.
use justmail.Prelude.{arith}
use justmail.Prelude.{map, ok, Result-cases, sym, codes}
use justmail.Scim.{to_lower}
use justmail.Prelude.{text_eq}
use justmail.Scim.Rows.{in_scim_group}
use justmail.Prelude.Table.{exclude}
use justmail.Scim.Groups.{insert_group, patch_members}
use justmail.Scim.Wire.{ScimGroup, lowered_path, value_display_name}
use justmail.Scim.Groups.{insert_group, patch_name}
use justmail.Scim.Users.{scim_user_at}
use justmail.Prelude.{Option-cases}
use justmail.Prelude.{
  ℕ, ◌≡◌, List, [], ◌∷◌, some, none, Option, Text, inl, inr, Bool-cases, refl, ◌∙◌,
}
use justmail.Prelude.Table.{first?}
use justmail.Prelude.Texts.{starts_with}
use justmail.Store.{Db}
use justmail.Scim.{ScimContext}
use justmail.Scim.Wire.{ScimGroup, lowered_path, Json, ScimGroup, PatchOp}
use justmail.Scim.Rows.{add_members, remove_members, set_members, with_row, without_row}
use justmail.Scim.Groups.{insert_group, patch_group_ops, patch_group_op}

-- The tables that no member row of a group touches.
abbrev pub IsSameOutside : Db → Db → Type 0
IsSameOutside db db' =
    (db'.members ≡ db.members) × (db'.users ≡ db.users) × (db'.scim_users ≡ db.scim_users)

pub add_members-outside :
    (ctx : ScimContext) (group : ℕ) (sids : List (Option ℕ)) (db : Db)
    → IsSameOutside db (add_members ctx group sids db).1
unfolding add_members
add_members-outside ctx group [] db = (refl, refl, refl)
add_members-outside ctx group (none ∷ sids) db = add_members-outside ctx group sids db
add_members-outside ctx group (some sid ∷ sids) db =
    elim (Option-cases (first? (scim_user_at ctx.org_id sid) db.scim_users)) [
      | inl missing ↦ rw missing (add_members-outside ctx group sids db)
      | inr (u, found) ↦ rw found (add_members-outside ctx group sids (with_row group sid db))
    ]

pub remove_members-outside :
    (ctx : ScimContext) (group : ℕ) (sids : List (Option ℕ)) (db : Db)
    → IsSameOutside db (remove_members ctx group sids db).1
unfolding remove_members
remove_members-outside ctx group [] db = (refl, refl, refl)
remove_members-outside ctx group (none ∷ sids) db = remove_members-outside ctx group sids db
remove_members-outside ctx group (some sid ∷ sids) db =
    remove_members-outside ctx group sids (without_row group sid db)

pub set_members-outside :
    (ctx : ScimContext) (group : ℕ) (sids : List (Option ℕ)) (db : Db)
    → IsSameOutside db (set_members ctx group sids db).1
set_members-outside ctx group sids db =
    add_members-outside ctx group sids
      (record db { scim_members = exclude (in_scim_group group) db.scim_members })

pub insert_group-members :
    (uuid_of : Text → Option ℕ) (ctx : ScimContext) (id : ℕ) (body : ScimGroup) (db : Db)
    → (insert_group uuid_of ctx id body db).1.members ≡ db.members
insert_group-members uuid_of ctx id body db =
    (set_members-outside ctx id (map uuid_of body.members) _).0

name-outside :
    (ctx : ScimContext) (group : ℕ) (name : Option Text) (db : Db) (next : List ℕ × Db)
    → patch_name ctx group name db ≡ ok next
    → IsSameOutside db next.1
name-outside ctx group none db next h = ground arith
name-outside ctx group (some name) db next h = ground arith

module _ (to_text : Json → Text) (uuid_of : Text → Option ℕ) where
  members-outside :
      (ctx : ScimContext) (group : ℕ) (op : PatchOp) (db : Db)
      → IsSameOutside db (patch_members to_text uuid_of ctx group op db).1
  members-outside ctx group op db = elim (Bool-cases (text_eq (to_lower op.op) (codes "add"))) [
    | inl adds ↦ rw adds (add_members-outside ctx group _ db)
    | inr not_adds ↦ elim (Bool-cases (text_eq (to_lower op.op) (codes "remove"))) [
      | inl removes ↦ rw not_adds (rw removes (remove_members-outside ctx group _ db))
      | inr not_removes ↦ elim (Bool-cases (text_eq (to_lower op.op) (codes "replace"))) [
        | inl replaces ↦
            rw not_adds (rw not_removes (rw replaces (set_members-outside ctx group _ db)))
        | inr not_replaces ↦ rw not_adds (rw not_removes (rw not_replaces (refl, refl, refl)))
      ]
    ]
  ]

  op-outside :
      (ctx : ScimContext) (group : ℕ) (op : PatchOp) (db : Db) (next : List ℕ × Db)
      → patch_group_op to_text uuid_of ctx group op db ≡ ok next
      → IsSameOutside db next.1
  op-outside ctx group op db next h =
      elim (Bool-cases (starts_with (lowered_path op) (codes "members"))) [
        | inl members ↦
            let is : patch_members to_text uuid_of ctx group op db ≡ next =
              ground (arith, members) in
            rw (sym is) (members-outside ctx group op db)
        | inr other ↦ name-outside ctx group (value_display_name op) db next (ground (arith, other))
      ]

  pub ops-outside :
      (ctx : ScimContext) (group : ℕ) (ops : List PatchOp) (db : Db) (next : List ℕ × Db)
      → patch_group_ops to_text uuid_of ctx group ops db ≡ ok next
      → IsSameOutside db next.1
  unfolding patch_group_ops
  ops-outside ctx group [] db next h = ground arith
  ops-outside ctx group (op ∷ ops) db next h =
      elim (Result-cases (patch_group_op to_text uuid_of ctx group op db)) [
        | inr (e, failed) ↦ absurd (ground arith)
        | inl (first, did) ↦
            elim (Result-cases (patch_group_ops to_text uuid_of ctx group ops first.1)) [
              | inr (e, failed) ↦ absurd (ground arith)
              | inl (rest, went) ↦
                  let before = op-outside ctx group op db first did in
                  let after = ops-outside ctx group ops first.1 rest went in
                  let same : rest.1 ≡ next.1 = ground arith in
                  rw (sym same) (after.0 ∙ before.0, after.1 ∙ before.1, after.2 ∙ before.2)
            ]
      ]
