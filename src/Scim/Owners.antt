-- ===== src/Scim/Owners.antt =====
-- What the groups of a directory do to the roles and the owners of its organization.
use justmail.Scim.{or}
use justmail.Scim.{trim}
use justmail.Prelude.{◌⊎◌}
use justmail.Scim.Rows.{names_of}
use justmail.Prelude.{◌↔◌}
use justmail.Prelude.{text_eq}
use justmail.Prelude.Table.{has}
use justmail.Prelude.{sym}
use justmail.Prelude.{Option-cases}
use justmail.Prelude.{
  ℕ, ◌≡◌, true, false, List, [], ◌∷◌, Option, some, none, Text, arith, ◌==◌, inl, inr, Bool-cases,
  ok, refl, ◌∙◌, map, suc,
}
use justmail.Prelude.Table.{first?, modify, has-first?}
use justmail.Store.{owner, Role, MemberRow, Db, member_at, is_owner, ScimUserRow, ScimGroupRow}
use justmail.Orgs.Members.{new_member, set_role}
use justmail.Orgs.Members.Owners.{IsKeyed, owners, owners-modify_absent, has-member_at}
use justmail.Invites.{upsert}
use justmail.Scim.{ScimContext}
use justmail.Scim.Wire.{ScimGroup}
use justmail.Scim.Users.{load_user, scim_user_at}
use justmail.Scim.Rows.{add_row, and_account, add_members}
use justmail.Scim.Groups.{insert_group, role_of, recompute_roles, create_group}
use justmail.Scim.Outside.{insert_group-members}
use justmail.Ldap.{resolve_role}
use justmail.Scim.Joined.{create_group-names_of}
use justmail.Scim.Names.{lists, add_row-scim_users}
use justmail.Scim.Roles.{among, recompute_roles_self}

-- Giving an owner another role takes one owner away.
owners-demote :
    (org user : ℕ) (role : Role) (ms : List MemberRow)
    → IsKeyed ms
    → first? (member_at org user) ms ≡ some (new_member org user owner)
    → is_owner role ≡ false
    → owners org ms ≡ suc (owners org (modify (member_at org user) (set_role role) ms))
owners-demote org user role [] h found lower = absurd (ground arith)
owners-demote org user role (m ∷ ms) (k, h) found lower = ground (
  arith,
  owners-demote org user role ms h,
  owners-modify_absent org user role ms,
  has-member_at org user m.org_id m.user_id ms,
)

among-and_account :
    (found : Option ScimUserRow) (u : ℕ) (ids : List ℕ)
    → among u ids ≡ true
    → among u (and_account found ids) ≡ true
among-and_account none u ids h = h
among-and_account (some s) u ids h = ground arith

among_first :
    (found : Option ScimUserRow) (s : ScimUserRow) (ids : List ℕ)
    → found ≡ some s
    → among s.user_id (and_account found ids) ≡ true
among_first found s ids h = rw h (ground arith)

-- The account of a listed resource is among those that `addMembers` found.
add_members-among :
    (ctx : ScimContext) (group sid : ℕ) (sids : List (Option ℕ)) (db : Db) (s : ScimUserRow)
    → lists sid sids ≡ true
    → first? (scim_user_at ctx.org_id sid) db.scim_users ≡ some s
    → among s.user_id (add_members ctx group sids db).0 ≡ true
unfolding add_members
add_members-among ctx group sid [] db s h found = absurd (ground arith)
add_members-among ctx group sid (none ∷ sids) db s h found =
    add_members-among ctx group sid sids db s h found
add_members-among ctx group sid (some t ∷ sids) db s h found =
    let at = first? (scim_user_at ctx.org_id t) db.scim_users in
    let next = add_row at group t db in
    elim (Bool-cases (t == sid)) [
      | inl same ↦ among_first at s _ (ground arith)
      | inr other ↦ among-and_account at s.user_id _ (
          add_members-among ctx group sid sids next s (ground arith)
            (rw (add_row-scim_users at group t db) found))
    ]

-- The groups' roles are read from the tables of the directory alone.
recompute_roles-role_of :
    (lower_case : Text → Text) (ctx : ScimContext) (users : List ℕ) (db : Db) (u : ℕ)
    → role_of lower_case ctx u (recompute_roles lower_case ctx users db)
      ≡ role_of lower_case ctx u db
unfolding recompute_roles
recompute_roles-role_of lower_case ctx [] db u = refl
recompute_roles-role_of lower_case ctx (v ∷ vs) db u =
    recompute_roles-role_of lower_case ctx vs
      (record db { members = upsert ctx.org_id v (role_of lower_case ctx v db) db.members }) u

load_user-eq-ok :
    (ctx : ScimContext) (sid : ℕ) (db : Db) (s : ScimUserRow)
    → load_user ctx (some sid) db ≡ ok s
    → first? (scim_user_at ctx.org_id sid) db.scim_users ≡ some s
unfolding load_user
load_user-eq-ok ctx sid db s h =
    elim (Option-cases (first? (scim_user_at ctx.org_id sid) db.scim_users)) [
      | inl missing ↦ absurd (ground arith)
      | inr (t, found) ↦ ground (arith, found)
    ]

create_group-eq-ok :
    (lower_case : Text → Text) (uuid_of : Text → Option ℕ) (ctx : ScimContext) (id : ℕ)
    (body : ScimGroup) (row : ScimGroupRow) (db db' : Db)
    → create_group lower_case uuid_of ctx id body db ≡ ok (row, db')
    → recompute_roles lower_case ctx
        (insert_group uuid_of ctx id body db).0
        (insert_group uuid_of ctx id body db).1
      ≡ db'
unfolding create_group
create_group-eq-ok lower_case uuid_of ctx id body row db db' h = ground arith

-- A member that a new group lists gets, in the organization and whatever role it had before, the role
-- that the map gives to the names of its groups, and these are exactly the names of the groups that it
-- was in and the name of the new one.
pub create_group-role_of :
    (lower_case : Text → Text) (uuid_of : Text → Option ℕ) (ctx : ScimContext) (id sid : ℕ)
    (body : ScimGroup) (row : ScimGroupRow) (db db' : Db) (s : ScimUserRow)
    → has (λ g. g.id == id) db.scim_groups ≡ false
    → lists sid (map uuid_of body.members) ≡ true
    → load_user ctx (some sid) db ≡ ok s
    → create_group lower_case uuid_of ctx id body db ≡ ok (row, db')
    → (names : List Text) × (first? (member_at ctx.org_id s.user_id) db'.members
        ≡ some (
            new_member ctx.org_id s.user_id
              (resolve_role lower_case names ctx.config.group_role_map ctx.config.default_role)))
      × ((x : Text)
          → (has (λ y. text_eq y x) names ≡ true) ↔ (
              (has (λ y. text_eq y x) (names_of ctx.org_id s.user_id db) ≡ true)
              ⊎ (x ≡ trim (or body.display_name []))))
create_group-role_of lower_case uuid_of ctx id sid body row db db' s fresh listed loaded h =
    let joined = insert_group uuid_of ctx id body db in
    let is = create_group-eq-ok lower_case uuid_of ctx id body row db db' h in
    let found = load_user-eq-ok ctx sid db s loaded in
    let named = add_members-among ctx id sid (map uuid_of body.members) _ s listed found in
    (
      names_of ctx.org_id s.user_id joined.1,
      rw (sym is) (recompute_roles_self lower_case ctx joined.0 joined.1 s.user_id named),
      λ x. create_group-names_of uuid_of ctx id sid body db s x fresh listed found,
    )

insert_group_one :
    (uuid_of : Text → Option ℕ) (ctx : ScimContext) (id sid : ℕ) (body : ScimGroup) (w : Text)
    (db : Db) (s : ScimUserRow)
    → body.members ≡ w ∷ []
    → uuid_of w ≡ some sid
    → first? (scim_user_at ctx.org_id sid) db.scim_users ≡ some s
    → (insert_group uuid_of ctx id body db).0 ≡ s.user_id ∷ []
unfolding add_members
insert_group_one uuid_of ctx id sid body w db s one num found = rw one (rw num (rw found refl))

-- Giving the one owner another role leaves no owner.
owners-upsert :
    (org user : ℕ) (role : Role) (ms : List MemberRow)
    → IsKeyed ms
    → owners org ms ≡ 1
    → first? (member_at org user) ms ≡ some (new_member org user owner)
    → is_owner role ≡ false
    → owners org (upsert org user role ms) ≡ 0
owners-upsert org user role ms keyed last holds lower = ground (
  arith,
  owners-demote org user role ms keyed holds lower,
  has-first? (member_at org user) (member_at org user) ms (new_member org user owner) holds,
)

recompute_one :
    (lower_case : Text → Text) (ctx : ScimContext) (user : ℕ) (users : List ℕ) (db : Db)
    → users ≡ user ∷ []
    → (recompute_roles lower_case ctx users db).members
      ≡ upsert ctx.org_id user (role_of lower_case ctx user db) db.members
unfolding recompute_roles
recompute_one lower_case ctx user users db one = rw one refl

-- A new group takes the ownership of an organization from its last owner, when that is its one member
-- and the groups of that account give a lower role: nobody owns the organization any more.
pub create_group_orphans :
    (lower_case : Text → Text) (uuid_of : Text → Option ℕ) (ctx : ScimContext) (id sid : ℕ)
    (body : ScimGroup) (row : ScimGroupRow) (w : Text) (db db' : Db) (s : ScimUserRow)
    → body.members ≡ w ∷ []
    → uuid_of w ≡ some sid
    → load_user ctx (some sid) db ≡ ok s
    → IsKeyed db.members
    → owners ctx.org_id db.members ≡ 1
    → first? (member_at ctx.org_id s.user_id) db.members
      ≡ some (new_member ctx.org_id s.user_id owner)
    → create_group lower_case uuid_of ctx id body db ≡ ok (row, db')
    → is_owner (role_of lower_case ctx s.user_id db') ≡ false
    → owners ctx.org_id db'.members ≡ 0
create_group_orphans lower_case uuid_of ctx id sid body row w db db' s one num loaded keyed last
      holds h lower =
    let joined = insert_group uuid_of ctx id body db in
    let is = create_group-eq-ok lower_case uuid_of ctx id body row db db' h in
    let found = load_user-eq-ok ctx sid db s loaded in
    let alone = insert_group_one uuid_of ctx id sid body w db s one num found in
    let kept = insert_group-members uuid_of ctx id body db in
    let role = role_of lower_case ctx s.user_id joined.1 in
    let same = recompute_roles-role_of lower_case ctx joined.0 joined.1 s.user_id in
    let members =
      (λ i. (sym is i).members)
      ∙ (recompute_one lower_case ctx s.user_id joined.0 joined.1 alone
          ∙ (λ i. upsert ctx.org_id s.user_id role (kept i))) in
    let lowered =
      (λ i. is_owner (sym same i))
      ∙ ((λ i. is_owner (role_of lower_case ctx s.user_id (is i))) ∙ lower) in
    (λ i. owners ctx.org_id (members i))
    ∙ owners-upsert ctx.org_id s.user_id role db.members keyed last holds lowered
