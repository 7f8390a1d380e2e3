-- ===== src/Groups.antt =====
-- apps/api/src/groups/groups.service.ts. The orders of the listings, those of the database's
-- collation, are arguments.
pub mod Sets
use justmail.Prelude.{
  ℕ, Bool, true, false, not, ◌&&◌, List, [], ◌∷◌, ◌++◌, map, Option, none, some, Text, text_eq,
  ◌==◌, if◌then◌else◌, Result, ok, err, not_found, conflict, ◌>>=◌, ◌>>◌, throw_if,
}
use justmail.Prelude.Table.{select, exclude, modify, first?, has, count}
use justmail.Prelude.Texts.{to_lower, trim}
use justmail.Store.{admin, viewer, DomainRow, GroupRow, GroupMemberRow, Db, Principal}
use justmail.Orgs.{require_role}
use justmail.Orgs.Members.{user_event}
use justmail.Mailboxes.{domain_at}
use justmail.Aliases.{or_kept, or_true}

-- The row of `GROUP_SELECT`: the group, its domain and the number of its members.
pub record MailGroup : Type 0 where
  pub row : GroupRow
  pub domain : DomainRow
  pub member_count : ℕ

-- `MailGroupDetail`
pub record MailGroupDetail : Type 0 where
  pub group : MailGroup
  pub members : List GroupMemberRow

-- `address` of `toGroup`
abbrev pub address : MailGroup → Text
address g = g.row.local_part ++ (b'@' ∷ g.domain.name)

abbrev pub in_group : ℕ → GroupMemberRow → Bool
in_group id m = m.group_id == id

-- `GROUP_SELECT … WHERE d.org_id = $1`
unfoldable pub join_domains : ℕ → Db → List GroupRow → List MailGroup
join_domains org db [] = []
join_domains org db (g ∷ rows) =
    let rest = join_domains org db rows in
    elim (first? (domain_at org g.domain_id) db.domains) [
      | none ↦ rest
      | some d ↦
          record { row = g; domain = d; member_count = count (in_group g.id) db.group_members }
          ∷ rest
    ]

-- `assertDomain`
unfoldable pub assert_domain : ℕ → ℕ → ℕ → ℕ → Db → Result (Unit {0})
assert_domain now org domain user db = do
  require_role now org user viewer db
  throw_if (not (has (domain_at org domain) db.domains)) (not_found "Domain not found")

-- `listOrg`
unfoldable pub list_org :
    (List MailGroup → List MailGroup) → ℕ → ℕ → ℕ → Db → Result (List MailGroup)
list_org order now org user db = do
  require_role now org user viewer db
  ok (order (join_domains org db db.groups))

-- `listDomain`
unfoldable pub list_domain :
    (List MailGroup → List MailGroup) → ℕ → ℕ → ℕ → ℕ → Db → Result (List MailGroup)
list_domain order now org domain user db = do
  assert_domain now org domain user db
  ok (order (join_domains org db (select (λ g. g.domain_id == domain) db.groups)))

module _ (by_address : List GroupMemberRow → List GroupMemberRow) where
  -- `loadMembers`
  unfoldable pub load_members : ℕ → Db → List GroupMemberRow
  load_members id db = by_address (select (in_group id) db.group_members)

  abbrev pub found : ℕ → Db → List MailGroup → Result MailGroupDetail
  found id db [] = err (not_found "Group not found")
  found id db (g ∷ rest) = ok (record { group = g; members = load_members id db })

  -- `get`
  unfoldable pub get : ℕ → ℕ → ℕ → ℕ → Db → Result MailGroupDetail
  get now org id user db = do
    require_role now org user viewer db
    found id db (join_domains org db (select (λ g. g.id == id) db.groups))

-- `[...new Set(…)]`: the first occurrences, in order.
abbrev pub to_set : List Text → List Text → List Text
to_set acc [] = acc
to_set acc (a ∷ rest) = to_set (if has (text_eq a) acc then acc else acc ++ a ∷ []) rest

abbrev pub is_some_text : Text → Bool
is_some_text a = not (text_eq a [])

abbrev pub normal : Text → Text
normal a = to_lower (trim a)

-- `dedupe`
unfoldable pub dedupe : List Text → List Text
dedupe addrs = to_set [] (select is_some_text (map normal addrs))

-- The unique key (group_id, address), a `citext`, of an address in lower case.
abbrev pub member_at : ℕ → Text → GroupMemberRow → Bool
member_at id lowered m = m.group_id == id && text_eq (to_lower m.address) lowered

-- `INSERT … ON CONFLICT (group_id, address) DO NOTHING`
abbrev pub insert_member : ℕ → Text → List GroupMemberRow → List GroupMemberRow
insert_member id a rows =
    if has (member_at id (to_lower a)) rows
    then rows
    else rows ++ record { group_id = id; address = a } ∷ []

-- `insertMembers`
unfoldable pub insert_members : ℕ → List Text → List GroupMemberRow → List GroupMemberRow
insert_members id [] rows = rows
insert_members id (a ∷ rest) rows = insert_members id rest (insert_member id (to_lower a) rows)

-- The unique key (domain_id, local_part), a `citext`.
abbrev pub group_at : ℕ → Text → GroupRow → Bool
group_at domain local_part g =
    g.domain_id == domain && text_eq (to_lower g.local_part) (to_lower local_part)

-- `CreateMailGroupRequest`
pub record CreateMailGroup : Type 0 where
  pub local_part : Text
  pub name : Text
  pub description : Option Text
  pub members : List Text
  pub enabled : Option Bool
  pub allow_member_send : Option Bool

abbrev pub or_false : Option Bool → Bool
or_false none = false
or_false (some b) = b

abbrev pub new_group : ℕ → ℕ → CreateMailGroup → GroupRow
new_group id domain req = record {
  id = id;
  domain_id = domain;
  local_part = to_lower req.local_part;
  name = req.name;
  description = req.description;
  enabled = or_true req.enabled;
  allow_member_send = or_false req.allow_member_send;
}

-- `UpdateMailGroupRequest`
pub record UpdateMailGroup : Type 0 where
  pub name : Option Text
  pub description : Option (Option Text)
  pub enabled : Option Bool
  pub allow_member_send : Option Bool

abbrev pub apply_update : UpdateMailGroup → GroupRow → GroupRow
apply_update req g = record g {
  name = or_kept req.name g.name;
  description = or_kept req.description g.description;
  enabled = or_kept req.enabled g.enabled;
  allow_member_send = or_kept req.allow_member_send g.allow_member_send;
}

module _ (by_address : List GroupMemberRow → List GroupMemberRow) where
  -- `create`
  unfoldable pub create :
      ℕ → ℕ → Principal → ℕ → ℕ → CreateMailGroup → Db → Result (MailGroupDetail × Db)
  create now id p org domain req db = do
    require_role now org p.user_id admin db
    assert_domain now org domain p.user_id db
    throw_if (has (group_at domain (to_lower req.local_part)) db.groups)
        (conflict "Group address already exists")
    let db' = user_event org p.user_id "group.create" "group" id (record db {
      groups = db.groups ++ new_group id domain req ∷ [];
      group_members = insert_members id (dedupe req.members) db.group_members;
    })
    detail ← get by_address now org id p.user_id db'
    ok (detail, db')

  -- `update`
  unfoldable pub update :
      ℕ → Principal → ℕ → ℕ → UpdateMailGroup → Db → Result (MailGroupDetail × Db)
  update now p org id req db = do
    require_role now org p.user_id admin db
    old ← get by_address now org id p.user_id db
    let db' =
        user_event org p.user_id "group.update" "group" id
          (record db { groups = modify (λ g. g.id == id) (apply_update req) db.groups })
    detail ← get by_address now org id p.user_id db'
    ok (detail, db')

  -- `setMembers`
  unfoldable pub set_members :
      ℕ → Principal → ℕ → ℕ → List Text → Db → Result (MailGroupDetail × Db)
  set_members now p org id members db = do
    require_role now org p.user_id admin db
    old ← get by_address now org id p.user_id db
    let db' = user_event org p.user_id "group.members.set" "group" id (record db {
      group_members = insert_members id (dedupe members) (exclude (in_group id) db.group_members);
    })
    detail ← get by_address now org id p.user_id db'
    ok (detail, db')

  -- `remove`; the members go with their group.
  unfoldable pub remove : ℕ → Principal → ℕ → ℕ → Db → Result Db
  remove now p org id db = do
    require_role now org p.user_id admin db
    old ← get by_address now org id p.user_id db
    ok (
        user_event org p.user_id "group.delete" "group" id (record db {
          groups = exclude (λ g. g.id == id) db.groups;
          group_members = exclude (in_group id) db.group_members;
        }))
