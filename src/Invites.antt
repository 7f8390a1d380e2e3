-- ===== src/Invites.antt =====
-- apps/api/src/invites/invites.service.ts, over the tables of `Orgs`. The hash of a token, that of a
-- password and the random token of `create` are arguments; `same_email` compares `citext` columns.
pub mod Pending
pub mod Acceptance
pub mod Listing
use justmail.Store.{user_active}
use justmail.Prelude.{
  ℕ, List, ◌+◌, ◌*◌, Bool, true, false, not, ◌&&◌, [], ◌∷◌, ◌++◌, Option, none, some, Text, text_eq,
  ltb, ◌==◌, if◌then◌else◌, Result, ok, err, bad_request, not_found, conflict, ◌>>=◌, ◌>>◌,
  throw_if,
}
use justmail.Prelude.Table.{exclude, modify, first?, has}
use justmail.Store.{
  Role, owner, admin, UserRow, MemberRow, InviteRow, Db, Principal, member_at, is_owner,
}
use justmail.Orgs.{require_role, is_none}
use justmail.Orgs.Members.{user_event, require_grant, new_member, set_role}

-- `INVITE_TTL_DAYS * 86_400_000`
abbrev pub invite_ttl : ℕ
invite_ttl = 14 * 86400000

abbrev pub by_email : (Text → Text → Bool) → Text → UserRow → Bool
by_email same_email email u = same_email u.email email

-- The join of `users` with the members of the organization.
abbrev already_member : (Text → Text → Bool) → ℕ → Text → Db → Bool
already_member same_email org email db =
    has (λ u. by_email same_email email u && has (member_at org u.id) db.members) db.users

abbrev pub new_invite : ℕ → ℕ → ℕ → ℕ → Text → Role → Text → InviteRow
new_invite now id org actor email role token_hash = record {
  id = id;
  org_id = org;
  email = email;
  role = role;
  token_hash = token_hash;
  invited_by = actor;
  expires_at = now + invite_ttl;
  accepted_at = none;
}

-- `create`: `token` is the random one that is mailed, and `id` the new row's uuid.
unfoldable pub create :
    (Text → Text)
    → (Text → Text → Bool)
    → ℕ
    → ℕ
    → Text
    → Principal
    → ℕ
    → Text
    → Role
    → Db
    → Result (InviteRow × Db)
create sha256 same_email now id token p org email role db = do
  require_role now org p.user_id admin db
  require_grant now org p.user_id role db
  throw_if (already_member same_email org email db) (conflict "User is already a member")
  let row = new_invite now id org p.user_id email role (sha256 token)
  ok (
    row,
    user_event org p.user_id "invite.create" "invite" id
        (record db { invites = db.invites ++ row ∷ [] }),
  )

abbrev pub check_pending : ℕ → Option InviteRow → Result InviteRow
check_pending now none = err (not_found "Invite not found")
check_pending now (some inv) = do
  throw_if (not (is_none inv.accepted_at)) (bad_request "Invite already used")
  throw_if (ltb inv.expires_at now) (bad_request "Invite expired")
  ok inv

-- `WHERE token_hash = $1`
abbrev pub hashed : Text → InviteRow → Bool
hashed hash i = text_eq i.token_hash hash

-- `loadPending`
unfoldable pub load_pending : (Text → Text) → ℕ → Text → Db → Result InviteRow
load_pending sha256 now token db = check_pending now (first? (hashed (sha256 token)) db.invites)

abbrev pub new_user : ℕ → Text → Text → Text → UserRow
new_user id email name hash = record {
  id = id;
  email = email;
  name = name;
  password_hash = some hash;
  status = user_active;
}

-- The user that the transaction of `accept` finds, or inserts under `id`.
abbrev pub user_for : ℕ → Option UserRow → ℕ
user_for id (some u) = u.id
user_for id none = id

abbrev users_with : UserRow → Option UserRow → List UserRow → List UserRow
users_with u (some old) us = us
users_with u none us = us ++ u ∷ []

-- `INSERT INTO org_members … ON CONFLICT (org_id, user_id) DO UPDATE SET role = EXCLUDED.role`
abbrev pub upsert : ℕ → ℕ → Role → List MemberRow → List MemberRow
upsert org user role ms =
    if has (member_at org user) ms
    then modify (member_at org user) (set_role role) ms
    else ms ++ new_member org user role ∷ []

abbrev pub stamp : ℕ → InviteRow → InviteRow
stamp now i = record i { accepted_at = some now }

-- `accept`, up to the session that it opens: the user who joins, and the database. `id` is the uuid
-- of a new user and `hash` that of its password.
unfoldable pub accept :
    (Text → Text) → (Text → Text → Bool) → ℕ → ℕ → Text → Text → Text → Db → Result (ℕ × Db)
accept sha256 same_email now id token name hash db = do
  inv ← load_pending sha256 now token db
  let old = first? (by_email same_email inv.email) db.users
  let user = user_for id old
  ok (
    user,
    user_event inv.org_id user "invite.accept" "invite" inv.id (record db {
      users = users_with (new_user id inv.email name hash) old db.users;
      members = upsert inv.org_id user inv.role db.members;
      invites = modify (λ i. i.id == inv.id) (stamp now) db.invites;
    }),
  )

abbrev pub revocable : ℕ → ℕ → InviteRow → Bool
revocable org id i = i.id == id && i.org_id == org && is_none i.accepted_at

-- `revoke`
unfoldable pub revoke : ℕ → Principal → ℕ → ℕ → Db → Result Db
revoke now p org id db = do
  require_role now org p.user_id admin db
  throw_if (not (has (revocable org id) db.invites)) (not_found "Invite not found")
  ok (
      user_event org p.user_id "invite.revoke" "invite" id
        (record db { invites = exclude (revocable org id) db.invites }))
