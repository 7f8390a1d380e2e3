-- ===== src/Invites/Acceptance.antt =====
-- What `accept` of apps/api/src/invites/invites.service.ts does to the members.
use justmail.Invites.{user_event}
use justmail.Invites.{UserRow}
use justmail.Prelude.{
  ◌==◌, ℕ, ◌+◌, ◌≡◌, ◌≢◌, ◌⊎◌, Bool, true, false, List, [], ◌∷◌, ◌++◌, some, arith, refl, inl, inr,
  Bool-cases, ok, Text,
}
use justmail.Prelude.Table.{modify, first?, has}
use justmail.Store.{Role, MemberRow, InviteRow, Db, member_at, is_owner}
use justmail.Orgs.Members.{set_role, new_member}
use justmail.Orgs.Members.Owners.{
  IsKeyed, owners, weight, owners-modify_absent, has-member_at, IsKeyed-modify, IsKeyed-append,
}
use justmail.Orgs.Members.Grants.{owns}
use justmail.Invites.{load_pending, accept, upsert, by_email, user_for, stamp}
use justmail.Invites.Pending.{accept-eq-ok}

first?-set_role :
    (org user : ℕ) (role : Role) (ms : List MemberRow)
    → has (member_at org user) ms ≡ true
    → first? (member_at org user) (modify (member_at org user) (set_role role) ms)
      ≡ some (new_member org user role)
first?-set_role org user role [] h = cc
first?-set_role org user role (m ∷ ms) h = ground (arith, first?-set_role org user role ms)

pub first?-joined :
    (org user : ℕ) (role : Role) (ms : List MemberRow)
    → has (member_at org user) ms ≡ false
    → first? (member_at org user) (ms ++ new_member org user role ∷ [])
      ≡ some (new_member org user role)
first?-joined org user role [] h = ground arith
first?-joined org user role (m ∷ ms) h = ground (arith, first?-joined org user role ms)

first?-set_role_ne :
    (org user o u : ℕ) (role : Role) (ms : List MemberRow)
    → (o ≢ org) ⊎ (u ≢ user)
    → first? (member_at o u) (modify (member_at org user) (set_role role) ms)
      ≡ first? (member_at o u) ms
first?-set_role_ne org user o u role [] h = refl
first?-set_role_ne org user o u role (m ∷ ms) h =
    ground (arith, first?-set_role_ne org user o u role ms h)

pub first?-joined_ne :
    (org user o u : ℕ) (role : Role) (ms : List MemberRow)
    → (o ≢ org) ⊎ (u ≢ user)
    → first? (member_at o u) (ms ++ new_member org user role ∷ []) ≡ first? (member_at o u) ms
first?-joined_ne org user o u role [] h = ground arith
first?-joined_ne org user o u role (m ∷ ms) h =
    ground (arith, first?-joined_ne org user o u role ms h)

pub upsert_self :
    (org user : ℕ) (role : Role) (ms : List MemberRow)
    → first? (member_at org user) (upsert org user role ms) ≡ some (new_member org user role)
upsert_self org user role ms =
    ground (arith, first?-set_role org user role ms, first?-joined org user role ms)

pub upsert_ne :
    (org user o u : ℕ) (role : Role) (ms : List MemberRow)
    → (o ≢ org) ⊎ (u ≢ user)
    → first? (member_at o u) (upsert org user role ms) ≡ first? (member_at o u) ms
upsert_ne org user o u role ms h =
    ground
      (arith, first?-set_role_ne org user o u role ms h, first?-joined_ne org user o u role ms h)

pub IsKeyed-upsert :
    (org user : ℕ) (role : Role) (ms : List MemberRow)
    → IsKeyed ms
    → IsKeyed (upsert org user role ms)
IsKeyed-upsert org user role ms h = elim (Bool-cases (has (member_at org user) ms)) [
  | inl there ↦ rw there (IsKeyed-modify org user role ms h)
  | inr absent ↦ rw absent (IsKeyed-append ms _ h absent)
]

-- Accepting makes the invited user, found by the email address or newly inserted, a member of the
-- inviting organization with exactly the invited role, changes no other membership and keeps the
-- key of the table.
pub accept-member :
    (sha256 : Text → Text) (same_email : Text → Text → Bool) (now id : ℕ) (token name hash : Text)
    (db db' : Db) (user : ℕ)
    → accept sha256 same_email now id token name hash db ≡ ok (user, db')
    → (inv : InviteRow) × (load_pending sha256 now token db ≡ ok inv)
      × (user ≡ user_for id (first? (by_email same_email inv.email) db.users))
      × (first? (member_at inv.org_id user) db'.members
          ≡ some (new_member inv.org_id user inv.role))
      × ((o u : ℕ)
          → (o ≢ inv.org_id) ⊎ (u ≢ user)
          → first? (member_at o u) db'.members ≡ first? (member_at o u) db.members)
      × (IsKeyed db.members → IsKeyed db'.members)
accept-member sha256 same_email now id token name hash db db' user h =
    let (inv, loaded, who, ms, _, _) =
      accept-eq-ok sha256 same_email now id token name hash db db' user h in
    (
      inv,
      loaded,
      who,
      rw ms (upsert_self inv.org_id user inv.role db.members),
      λ o u ne. rw ms (upsert_ne inv.org_id user o u inv.role db.members ne),
      λ keyed. rw ms (IsKeyed-upsert inv.org_id user inv.role db.members keyed),
    )

-- A demotion takes an owner away.
owners-demote :
    (org user : ℕ) (role : Role) (ms : List MemberRow)
    → IsKeyed ms
    → is_owner role ≡ false
    → owners org (modify (member_at org user) (set_role role) ms) + weight (owns org user ms)
      ≡ owners org ms
owners-demote org user role [] h k = omega arith
owners-demote org user role (m ∷ ms) (j, h) k = ground (
  arith,
  owners-demote org user role ms h k,
  owners-modify_absent org user role ms,
  has-member_at org user m.org_id m.user_id ms,
)

owns-has :
    (org user : ℕ) (ms : List MemberRow)
    → owns org user ms ≡ true
    → has (member_at org user) ms ≡ true
owns-has org user [] h = cc
owns-has org user (m ∷ ms) h = ground (arith, owns-has org user ms)

-- When the invite's role is not owner and the invited address is that of the only owner of the
-- organization, `accept` succeeds and leaves the organization with no owner at all: the last owner
-- is not guarded there.
pub accept-loses_owner :
    (sha256 : Text → Text) (same_email : Text → Text → Bool) (now id : ℕ) (token name hash : Text)
    (db : Db) (inv : InviteRow) (u : UserRow)
    → IsKeyed db.members
    → load_pending sha256 now token db ≡ ok inv
    → first? (by_email same_email inv.email) db.users ≡ some u
    → is_owner inv.role ≡ false
    → owns inv.org_id u.id db.members ≡ true
    → owners inv.org_id db.members ≡ 1
    → (db' : Db) × (accept sha256 same_email now id token name hash db ≡ ok (u.id, db'))
      × (owners inv.org_id db'.members ≡ 0)
unfolding accept
accept-loses_owner sha256 same_email now id token name hash db inv u keyed pending found low own
      one =
    let there = owns-has inv.org_id u.id db.members own in
    (
      user_event inv.org_id u.id "invite.accept" "invite" inv.id (record db {
        members = upsert inv.org_id u.id inv.role db.members;
        invites = modify (λ i. i.id == inv.id) (stamp now) db.invites;
      }),
      rw pending (rw found refl),
      rw there (ground (arith, owners-demote inv.org_id u.id inv.role db.members keyed low)),
    )
