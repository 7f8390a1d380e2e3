-- ===== src/Orgs/Members.antt =====
-- The operations of apps/api/src/orgs/orgs.service.ts on organizations and their members.
pub mod Owners
pub mod Sound
pub mod Joining
pub mod Steps
pub mod Grants
use justmail.Prelude.{
  ℕ, Bool, List, true, false, not, ◌&&◌, ◌||◌, [], ◌∷◌, ◌++◌, Option, none, some, String, Text,
  text_eq, leb, ◌==◌, if◌then◌else◌, Result, ok, err, forbidden, not_found, conflict, ◌>>=◌, ◌>>◌,
  throw_if,
}
use justmail.Prelude.Table.{select, exclude, modify, first?, has, count}
use justmail.Store.{
  Role, owner, admin, OrgRow, EndpointRow, DeliveryRow, UserRow, MemberRow, Db, Principal, log,
  member_at, is_owner, owner_of,
}
use justmail.Slug.{slugify}
use justmail.Orgs.{require_role}

abbrev pub user_event : ℕ → ℕ → String → String → ℕ → Db → Db
user_event org actor action target_type target = log (record {
  org_id = org;
  actor_id = some actor;
  action = action;
  target_type = target_type;
  target_id = some target;
})

abbrev pub slug_of : (Text → Text) → Text → Text → Option Text → Text
slug_of fold fallback name (some slug) = slug
slug_of fold fallback name none = slugify fold fallback name

-- The rows that the inserts write, with the columns' defaults.
abbrev pub new_org : ℕ → ℕ → Text → Text → OrgRow
new_org now id name slug = record {
  id = id;
  name = name;
  slug = slug;
  plan = "free";
  storage_quota_mb = none;
  created_at = now;
}

abbrev pub new_member : ℕ → ℕ → Role → MemberRow
new_member org user role = record { org_id = org; user_id = user; role = role }

-- `create`: a taken slug is the unique violation 23505, which rolls both inserts back.
unfoldable pub create :
    (Text → Text) → Text → ℕ → ℕ → Principal → Text → Option Text → Db → Result Db
create fold fallback now id p name slug db = do
  let s = slug_of fold fallback name slug
  throw_if (has (λ o. text_eq o.slug s) db.orgs) (conflict "Slug already in use")
  ok (
      user_event id p.user_id "org.create" "organization" id (record db {
        orgs = db.orgs ++ new_org now id name s ∷ [];
        members = db.members ++ new_member id p.user_id owner ∷ [];
      }))

abbrev rename : Option Text → OrgRow → OrgRow
rename none o = o
rename (some name) o = record o { name = name }

-- `update`
unfoldable pub update : ℕ → Principal → ℕ → Option Text → Db → Result Db
update now p org name db = do
  require_role now org p.user_id admin db
  ok (
      user_event org p.user_id "org.update" "organization" org
        (record db { orgs = modify (λ o. o.id == org) (rename name) db.orgs }))

-- Deliveries go with their endpoints.
abbrev delivers_for : List EndpointRow → DeliveryRow → Bool
delivers_for es d = has (λ e. e.id == d.endpoint_id) es

-- `DELETE FROM organizations`, with the cascades to the tables that are modelled.
abbrev pub delete_org : ℕ → Db → Db
delete_org org db = record db {
  orgs = exclude (λ o. o.id == org) db.orgs;
  members = exclude (λ m. m.org_id == org) db.members;
  keys = exclude (λ k. k.org_id == org) db.keys;
  invites = exclude (λ i. i.org_id == org) db.invites;
  endpoints = exclude (λ e. e.org_id == org) db.endpoints;
  deliveries = exclude (delivers_for (select (λ e. e.org_id == org) db.endpoints)) db.deliveries;
  holds = exclude (λ h. h.org_id == org) db.holds;
  policies = exclude (λ r. r.org_id == org) db.policies;
  filters = exclude (λ f. f.org_id == org) db.filters;
  scim_configs = exclude (λ c. c.org_id == org) db.scim_configs;
  scim_users = exclude (λ u. u.org_id == org) db.scim_users;
  scim_groups = exclude (λ g. g.org_id == org) db.scim_groups;
  scim_members =
      exclude
        (λ m.
          has (λ g. g.org_id == org && g.id == m.group_id) db.scim_groups
          || has (λ u. u.org_id == org && u.id == m.scim_user_id) db.scim_users)
        db.scim_members;
}

-- `remove`
unfoldable pub remove : ℕ → Principal → ℕ → Db → Result Db
remove now p org db = do
  require_role now org p.user_id owner db
  throw_if (has (λ d. d.org_id == org) db.domains) (conflict "Organization has domains")
  ok (user_event org p.user_id "org.delete" "organization" org (delete_org org db))

-- Inviting or adding an owner takes an owner: `if (req.role === "owner") requireRole(…, "owner")`.
abbrev pub require_grant : ℕ → ℕ → ℕ → Role → Db → Result (Unit {0})
require_grant now org actor role db =
    if is_owner role then (do require_role now org actor owner db; ok tt) else ok tt

abbrev found_user : Option UserRow → Result UserRow
found_user none = err (not_found "User not found")
found_user (some u) = ok u

-- `addMember`; `same_email` is the comparison of the `citext` column.
unfoldable pub add_member : (Text → Text → Bool) → ℕ → Principal → ℕ → Text → Role → Db → Result Db
add_member same_email now p org email role db = do
  require_role now org p.user_id admin db
  require_grant now org p.user_id role db
  u ← found_user (first? (λ u. same_email u.email email) db.users)
  throw_if (has (member_at org u.id) db.members) (conflict "Already a member")
  ok (
      user_event org p.user_id "org.member.add" "user" u.id
        (record db { members = db.members ++ new_member org u.id role ∷ [] }))

abbrev is_owner_row : Option MemberRow → Bool
is_owner_row none = false
is_owner_row (some m) = is_owner m.role

-- `guardLastOwner`
unfoldable pub guard_last_owner : ℕ → ℕ → Db → Result (Unit {0})
guard_last_owner org user db =
    throw_if
      (is_owner_row (first? (member_at org user) db.members)
        && leb (count (owner_of org) db.members) 1)
      (conflict "Cannot remove the last owner")

abbrev pub set_role : Role → MemberRow → MemberRow
set_role role m = record m { role = role }

-- `updateMember`
unfoldable pub update_member : ℕ → Principal → ℕ → ℕ → Role → Db → Result Db
update_member now p org user role db = do
  actor ← require_role now org p.user_id admin db
  throw_if (is_owner role && not (is_owner actor)) (forbidden "Only owners can grant owner")
  guard_last_owner org user db
  throw_if (not (has (member_at org user) db.members)) (not_found "Member not found")
  ok (
      user_event org p.user_id "org.member.update" "user" user
        (record db { members = modify (member_at org user) (set_role role) db.members }))

-- `if (userId !== principal.userId) requireRole(…, "admin")`: a member may leave by itself.
abbrev self_or_admin : ℕ → Principal → ℕ → ℕ → Db → Result (Unit {0})
self_or_admin now p org user db =
    if user == p.user_id then ok tt else (do require_role now org p.user_id admin db; ok tt)

-- `removeMember`
unfoldable pub remove_member : ℕ → Principal → ℕ → ℕ → Db → Result Db
remove_member now p org user db = do
  self_or_admin now p org user db
  guard_last_owner org user db
  throw_if (not (has (member_at org user) db.members)) (not_found "Member not found")
  ok (
      user_event org p.user_id "org.member.remove" "user" user
        (record db { members = exclude (member_at org user) db.members }))
