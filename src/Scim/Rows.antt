-- ===== src/Scim/Rows.antt =====
-- The members of the groups of apps/api/src/scim/scim.service.ts.
use justmail.Prelude.{
  ℕ, Bool, ◌&&◌, List, [], ◌∷◌, ◌++◌, Option, none, some, Text, ◌==◌, if◌then◌else◌,
}
use justmail.Prelude.Table.{select, exclude, first?, has}
use justmail.Store.{ScimUserRow, ScimGroupRow, ScimMemberRow, Db}
use justmail.Scim.{ScimContext}
use justmail.Scim.Users.{scim_user_at}

abbrev pub in_scim_group : ℕ → ScimMemberRow → Bool
in_scim_group id m = m.group_id == id

abbrev pub row_at : ℕ → ℕ → ScimMemberRow → Bool
row_at group sid m = m.group_id == group && m.scim_user_id == sid

-- The accounts of the joined rows of `scim_users`, whose `id` is a key.
unfoldable pub accounts : List ScimUserRow → List ScimMemberRow → List ℕ
accounts us [] = []
accounts us (m ∷ ms) =
    let rest = accounts us ms in
    elim (first? (λ u. u.id == m.scim_user_id) us) [ none ↦ rest | some u ↦ u.user_id ∷ rest ]

-- `memberUserIds`
abbrev pub member_user_ids : ℕ → Db → List ℕ
member_user_ids group db = accounts db.scim_users (select (in_scim_group group) db.scim_members)

-- `INSERT … ON CONFLICT DO NOTHING`
abbrev pub insert_row : ℕ → ℕ → List ScimMemberRow → List ScimMemberRow
insert_row group sid ms =
    if has (row_at group sid) ms
    then ms
    else ms ++ record { group_id = group; scim_user_id = sid } ∷ []

abbrev pub with_row : ℕ → ℕ → Db → Db
with_row group sid db = record db { scim_members = insert_row group sid db.scim_members }

abbrev pub without_row : ℕ → ℕ → Db → Db
without_row group sid db = record db { scim_members = exclude (row_at group sid) db.scim_members }

abbrev pub and_account : Option ScimUserRow → List ℕ → List ℕ
and_account none ids = ids
and_account (some u) ids = u.user_id ∷ ids

abbrev pub add_row : Option ScimUserRow → ℕ → ℕ → Db → Db
add_row none group sid db = db
add_row (some u) group sid db = with_row group sid db

-- `addMembers`; `none` is a value that is no uuid. The accounts that were found, and the tables.
unfoldable pub add_members : ScimContext → ℕ → List (Option ℕ) → Db → List ℕ × Db
add_members ctx group [] db = ([], db)
add_members ctx group (none ∷ sids) db = add_members ctx group sids db
add_members ctx group (some sid ∷ sids) db =
    let found = first? (scim_user_at ctx.org_id sid) db.scim_users in
    let next = add_members ctx group sids (add_row found group sid db) in
    (and_account found next.0, next.1)

-- `removeMembers`
unfoldable pub remove_members : ScimContext → ℕ → List (Option ℕ) → Db → List ℕ × Db
remove_members ctx group [] db = ([], db)
remove_members ctx group (none ∷ sids) db = remove_members ctx group sids db
remove_members ctx group (some sid ∷ sids) db =
    let found = first? (scim_user_at ctx.org_id sid) db.scim_users in
    let next = remove_members ctx group sids (without_row group sid db) in
    (and_account found next.0, next.1)

-- `setMembers`
abbrev pub set_members : ScimContext → ℕ → List (Option ℕ) → Db → List ℕ × Db
set_members ctx group sids db =
    add_members ctx group sids
      (record db { scim_members = exclude (in_scim_group group) db.scim_members })

-- Whether the resource with an id is one of an account, in the organization.
abbrev pub is_account : ℕ → ℕ → List ScimUserRow → ScimMemberRow → Bool
is_account org user us m =
    has (λ u. u.id == m.scim_user_id && u.user_id == user && u.org_id == org) us

abbrev pub and_name : Option ScimGroupRow → List Text → List Text
and_name none names = names
and_name (some g) names = g.display_name ∷ names

-- The names of the groups of an account: the rows of the join in `recomputeRoles`.
unfoldable pub group_names : List ScimGroupRow → List ScimMemberRow → List Text
group_names gs [] = []
group_names gs (m ∷ ms) =
    let rest = group_names gs ms in and_name (first? (λ g. g.id == m.group_id) gs) rest

abbrev pub names_of : ℕ → ℕ → Db → List Text
names_of org user db =
    group_names db.scim_groups (select (is_account org user db.scim_users) db.scim_members)
