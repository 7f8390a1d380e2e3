-- ===== src/Scim/Isolation.antt =====
-- The requests of apps/api/src/scim/scim.service.ts that change tables, as steps, and what no step of one
-- organization's directory changes for another organization.
use justmail.Prelude.Table.{exclude}
use justmail.Prelude.{
  ◌++◌, ◌==◌, map, ℕ, ◌≡◌, ◌≢◌, Bool, List, Option, Text, arith, inl, inr, refl, ◌∙◌, ok,
  Result-cases,
}
use justmail.Prelude.Table.{exclude, first?}
use justmail.Store.{Role, Db, member_at, ScimUserRow, ScimGroupRow, MemberRow}
use justmail.Invites.Acceptance.{first?-joined_ne}
use justmail.Scim.{ScimContext}
use justmail.Scim.Wire.{Json, ScimUser, ScimGroup, PatchOp}
use justmail.Scim.Users.{create_user, join_org, load_user}
use justmail.Scim.Changes.{replace_user, patch_user, delete_user}
use justmail.Scim.Rows.{member_user_ids, in_scim_group, set_members}
use justmail.Scim.Groups.{
  insert_group, put_group, create_group, patch_group, replace_group, delete_group, load_group,
  recompute_roles, patch_group_ops,
}
use justmail.Scim.Roles.{recompute_roles_ne}
use justmail.Scim.Outside.{insert_group-members, set_members-outside, ops-outside}

put_group-members :
    (body : ScimGroup) (group : ℕ) (db : Db) → (put_group body group db).members ≡ db.members
put_group-members body group db = ground arith

replace_user-members :
    (ctx : ScimContext) (id : Option ℕ) (body : ScimUser) (row : ScimUserRow) (db db' : Db)
    → replace_user ctx id body db ≡ ok (row, db')
    → db'.members ≡ db.members
unfolding replace_user
replace_user-members ctx id body row db db' h = elim (Result-cases (load_user ctx id db)) [
  | inr (e, failed) ↦ absurd (ground arith)
  | inl (u, found) ↦ ground arith
]

patch_user-members :
    (ctx : ScimContext) (id : Option ℕ) (ops : List PatchOp) (row : ScimUserRow) (db db' : Db)
    → patch_user ctx id ops db ≡ ok (row, db')
    → db'.members ≡ db.members
unfolding patch_user
patch_user-members ctx id ops row db db' h = elim (Result-cases (load_user ctx id db)) [
  | inr (e, failed) ↦ absurd (ground arith)
  | inl (u, found) ↦ ground arith
]

delete_user-members :
    (ctx : ScimContext) (id : Option ℕ) (db db' : Db)
    → delete_user ctx id db ≡ ok db'
    → db'.members ≡ db.members
unfolding delete_user
delete_user-members ctx id db db' h = elim (Result-cases (load_user ctx id db)) [
  | inr (e, failed) ↦ absurd (ground arith)
  | inl (u, found) ↦ ground arith
]

module _ (same_email : Text → Text → Bool) (lower_case : Text → Text) (to_text : Json → Text)
    (uuid_of : Text → Option ℕ) (ctx : ScimContext) where
  -- A request that succeeded, with the tables before and after it.
  pub data Served (db db' : Db) : Type 0 where
    user_created :
        (id user : ℕ) (body : ScimUser) (row : ScimUserRow)
        → create_user same_email ctx id user body db ≡ ok (row, db')
        → Served db db'
    user_replaced :
        (id : Option ℕ) (body : ScimUser) (row : ScimUserRow)
        → replace_user ctx id body db ≡ ok (row, db')
        → Served db db'
    user_patched :
        (id : Option ℕ) (ops : List PatchOp) (row : ScimUserRow)
        → patch_user ctx id ops db ≡ ok (row, db')
        → Served db db'
    user_deleted : (id : Option ℕ) → delete_user ctx id db ≡ ok db' → Served db db'
    group_created :
        (id : ℕ) (body : ScimGroup) (row : ScimGroupRow)
        → create_group lower_case uuid_of ctx id body db ≡ ok (row, db')
        → Served db db'
    group_replaced :
        (id : Option ℕ) (body : ScimGroup) (row : ScimGroupRow)
        → replace_group lower_case uuid_of ctx id body db ≡ ok (row, db')
        → Served db db'
    group_patched :
        (id : Option ℕ) (ops : List PatchOp) (row : ScimGroupRow)
        → patch_group lower_case to_text uuid_of ctx id ops db ≡ ok (row, db')
        → Served db db'
    group_deleted : (id : Option ℕ) → delete_group lower_case ctx id db ≡ ok db' → Served db db'

  -- Requests of the directory, one after the other.
  pub data Run : Db → Db → Type 0 where
    done : (db : Db) → Run db db
    more : (db db' db'' : Db) → Run db db' → Served db' db'' → Run db db''

  join_org_ne :
      (user o u : ℕ) (role : Role) (ms : List MemberRow)
      → o ≢ ctx.org_id
      → first? (member_at o u) (join_org ctx.org_id user role ms) ≡ first? (member_at o u) ms
  join_org_ne user o u role ms other =
      ground (arith, first?-joined_ne ctx.org_id user o u role ms (inl other))

  recomputed :
      (users : List ℕ) (db next db' : Db) (o u : ℕ)
      → o ≢ ctx.org_id
      → next.members ≡ db.members
      → db' ≡ recompute_roles lower_case ctx users next
      → first? (member_at o u) db'.members ≡ first? (member_at o u) db.members
  recomputed users db next db' o u other same is =
      (λ i. first? (member_at o u) (is i).members)
      ∙ (recompute_roles_ne lower_case ctx users next o u (inl other)
          ∙ (λ i. first? (member_at o u) (same i)))

  create_user_isolated :
      (id user : ℕ) (body : ScimUser) (row : ScimUserRow) (db db' : Db) (o u : ℕ)
      → o ≢ ctx.org_id
      → create_user same_email ctx id user body db ≡ ok (row, db')
      → first? (member_at o u) db'.members ≡ first? (member_at o u) db.members
  unfolding create_user
  create_user_isolated id user body row db db' o u other h =
      ground (arith, join_org_ne row.user_id o u ctx.config.default_role db.members other)

  create_group_isolated :
      (id : ℕ) (body : ScimGroup) (row : ScimGroupRow) (db db' : Db) (o u : ℕ)
      → o ≢ ctx.org_id
      → create_group lower_case uuid_of ctx id body db ≡ ok (row, db')
      → first? (member_at o u) db'.members ≡ first? (member_at o u) db.members
  unfolding create_group
  create_group_isolated id body row db db' o u other h =
      let joined = insert_group uuid_of ctx id body db in
      recomputed joined.0 db joined.1 db' o u other (insert_group-members uuid_of ctx id body db)
        (ground arith)

  replace_group_isolated :
      (id : Option ℕ) (body : ScimGroup) (row : ScimGroupRow) (db db' : Db) (o u : ℕ)
      → o ≢ ctx.org_id
      → replace_group lower_case uuid_of ctx id body db ≡ ok (row, db')
      → first? (member_at o u) db'.members ≡ first? (member_at o u) db.members
  unfolding replace_group
  replace_group_isolated id body row db db' o u other h =
      elim (Result-cases (load_group ctx id db)) [
        | inr (e, failed) ↦ absurd (ground arith)
        | inl (g, found) ↦
            let named = put_group body g.id db in
            let next = set_members ctx g.id (map uuid_of body.members) named in
            let users = member_user_ids g.id named ++ next.0 in
            elim (Result-cases (load_group ctx id (recompute_roles lower_case ctx users next.1))) [
              | inr (e, lost) ↦ absurd (ground arith)
              | inl (again, kept) ↦
                  recomputed users db next.1 db' o u other
                    ((set_members-outside ctx g.id (map uuid_of body.members) named).0
                      ∙ put_group-members body g.id db)
                    (ground arith)
            ]
      ]

  patch_group_isolated :
      (id : Option ℕ) (ops : List PatchOp) (row : ScimGroupRow) (db db' : Db) (o u : ℕ)
      → o ≢ ctx.org_id
      → patch_group lower_case to_text uuid_of ctx id ops db ≡ ok (row, db')
      → first? (member_at o u) db'.members ≡ first? (member_at o u) db.members
  unfolding patch_group
  patch_group_isolated id ops row db db' o u other h = elim (Result-cases (load_group ctx id db)) [
    | inr (e, failed) ↦ absurd (ground arith)
    | inl (g, found) ↦ elim (Result-cases (patch_group_ops to_text uuid_of ctx g.id ops db)) [
      | inr (e, failed) ↦ absurd (ground arith)
      | inl (next, went) ↦
          elim (Result-cases (load_group ctx id (recompute_roles lower_case ctx next.0 next.1))) [
            | inr (e, lost) ↦ absurd (ground arith)
            | inl (again, kept) ↦
                recomputed next.0 db next.1 db' o u other
                  (ops-outside to_text uuid_of ctx g.id ops db next went).0 (ground arith)
          ]
    ]
  ]

  delete_group_isolated :
      (id : Option ℕ) (db db' : Db) (o u : ℕ)
      → o ≢ ctx.org_id
      → delete_group lower_case ctx id db ≡ ok db'
      → first? (member_at o u) db'.members ≡ first? (member_at o u) db.members
  unfolding delete_group
  delete_group_isolated id db db' o u other h = elim (Result-cases (load_group ctx id db)) [
    | inr (e, failed) ↦ absurd (ground arith)
    | inl (g, found) ↦
        recomputed (member_user_ids g.id db) db
          (record db {
            scim_groups = exclude (λ x. x.id == g.id) db.scim_groups;
            scim_members = exclude (in_scim_group g.id) db.scim_members;
          })
          db' o u other refl (ground arith)
  ]

  Served-isolated :
      (db db' : Db) (o u : ℕ)
      → o ≢ ctx.org_id
      → Served db db'
      → first? (member_at o u) db'.members ≡ first? (member_at o u) db.members
  Served-isolated db db' o u other (user_created id user body row h) =
      create_user_isolated id user body row db db' o u other h
  Served-isolated db db' o u other (user_replaced id body row h) =
      λ i. first? (member_at o u) (replace_user-members ctx id body row db db' h i)
  Served-isolated db db' o u other (user_patched id ops row h) =
      λ i. first? (member_at o u) (patch_user-members ctx id ops row db db' h i)
  Served-isolated db db' o u other (user_deleted id h) =
      λ i. first? (member_at o u) (delete_user-members ctx id db db' h i)
  Served-isolated db db' o u other (group_created id body row h) =
      create_group_isolated id body row db db' o u other h
  Served-isolated db db' o u other (group_replaced id body row h) =
      replace_group_isolated id body row db db' o u other h
  Served-isolated db db' o u other (group_patched id ops row h) =
      patch_group_isolated id ops row db db' o u other h
  Served-isolated db db' o u other (group_deleted id h) =
      delete_group_isolated id db db' o u other h

  -- Whatever requests an organization's directory makes, one after the other, the memberships of every
  -- other organization stay as they were: nobody joins it, leaves it or changes role in it.
  pub Run-isolated :
      (db db' : Db) (o u : ℕ)
      → o ≢ ctx.org_id
      → Run db db'
      → first? (member_at o u) db'.members ≡ first? (member_at o u) db.members
  Run-isolated db _ o u other (done _) = refl
  Run-isolated db db'' o u other (more _ mid _ before last) =
      Served-isolated mid db'' o u other last ∙ Run-isolated db mid o u other before
