-- ===== src/Orgs/Access.antt =====
-- What the role checks of apps/api/src/orgs/orgs.service.ts let pass.
use justmail.Prelude.{
  ℕ, ◌≤◌, ◌≡◌, ◌≢◌, ◌⊎◌, ◌↔◌, false, List, [], ◌∷◌, none, some, arith, ◌==◌, inl, inr, Option-cases,
  ok, String,
}
use justmail.Prelude.Table.{first?, has, has-exclude}
use justmail.Store.{
  Role, owner, member, viewer, OrgRow, MemberRow, KeyRow, Db, Principal, member_at,
}
use justmail.Orgs.{
  rank, includes, role_from_scopes, live_key, find_role, require_role, require_org_access,
}
use justmail.Orgs.Members.{remove}

role_from_scopes-le : (scopes : List String) → rank (role_from_scopes scopes) ≤ 2
unfolding role_from_scopes
role_from_scopes-le [] = omega arith
role_from_scopes-le (s ∷ ss) = ground arith

-- The role of a caller: of the membership, and of a live API key only where there is none.
pub data MayAct (now org user : ℕ) (db : Db) : Role → Type 0 where
  by_row :
      {r : Role} (m : MemberRow)
      → first? (member_at org user) db.members ≡ some m
      → m.role ≡ r
      → MayAct now org user db r
  by_key :
      {r : Role} (k : KeyRow)
      → first? (member_at org user) db.members ≡ none
      → first? (live_key now user) db.keys ≡ some k
      → k.org_id ≡ org
      → role_from_scopes k.scopes ≡ r
      → MayAct now org user db r

find_role-MayAct :
    (now org user : ℕ) (db : Db) (r : Role)
    → find_role now org user db ≡ some r
    → MayAct now org user db r
unfolding find_role
find_role-MayAct now org user db r h =
    elim (Option-cases (first? (member_at org user) db.members)) [
      | inl missing ↦ elim (Option-cases (first? (live_key now user) db.keys)) [
        | inl no_key ↦ absurd (ground arith)
        | inr (k, found) ↦ by_key k missing found (ground arith) (ground arith)
      ]
      | inr (m, found) ↦ by_row m found (ground arith)
    ]

MayAct-find_role :
    (now org user : ℕ) (db : Db) (r : Role)
    → MayAct now org user db r
    → find_role now org user db ≡ some r
unfolding find_role
MayAct-find_role now org user db r (by_row m found e) = ground arith
MayAct-find_role now org user db r (by_key k missing found same e) = ground arith

-- The role a principal acts with is at most admin unless a row of `org_members` says owner.
pub find_role-owner :
    (now org user : ℕ) (db : Db)
    → find_role now org user db ≡ some owner
    → (m : MemberRow) × (first? (member_at org user) db.members ≡ some m) × (m.role ≡ owner)
unfolding find_role
find_role-owner now org user db h = elim (Option-cases (first? (member_at org user) db.members)) [
  | inl missing ↦ elim (Option-cases (first? (live_key now user) db.keys)) [
    | inl no_key ↦ absurd (ground arith)
    | inr (k, found) ↦ absurd (ground (arith, role_from_scopes-le k.scopes))
  ]
  | inr (m, found) ↦ (m, found, ground arith)
]

-- An organization is deleted only at the request of a member whose own row says owner (no API key
-- can do it), and only when no domain belongs to it; then none of its rows is left.
pub remove_by_owner :
    (now : ℕ) (p : Principal) (org : ℕ) (db db' : Db)
    → remove now p org db ≡ ok db'
    → ((m : MemberRow) × (first? (member_at org p.user_id) db.members ≡ some m) × (m.role ≡ owner))
      × (has (λ d. d.org_id == org) db.domains ≡ false)
      × (has (λ o. o.id == org) db'.orgs ≡ false)
      × (has (λ m. m.org_id == org) db'.members ≡ false)
      × (has (λ k. k.org_id == org) db'.keys ≡ false)
unfolding remove require_role
remove_by_owner now p org db db' h = (
  find_role-owner now org p.user_id db (ground arith),
  ground arith,
  ground (arith, has-exclude (λ (o : OrgRow). o.id == org) db.orgs),
  ground (arith, has-exclude (λ (m : MemberRow). m.org_id == org) db.members),
  ground (arith, has-exclude (λ (k : KeyRow). k.org_id == org) db.keys),
)

-- When a role check passes for a caller without a membership whose live API key has scopes, none
-- of them "admin" or "write", the organization is the key's, the required role is viewer, and so
-- is the role found.
pub require_role_read_only :
    (now org user : ℕ) (min : Role) (db : Db) (k : KeyRow) (r : Role)
    → first? (member_at org user) db.members ≡ none
    → first? (live_key now user) db.keys ≡ some k
    → k.scopes ≢ []
    → includes "admin" k.scopes ≡ false
    → includes "write" k.scopes ≡ false
    → require_role now org user min db ≡ ok r
    → (k.org_id ≡ org) × (min ≡ viewer) × (r ≡ viewer)
unfolding require_role find_role role_from_scopes
require_role_read_only now org user min db k r no_row key scoped no_admin no_write h = ground arith

-- A webmail session bound to a mailbox of the organization acts there exactly as a member: it
-- passes for the roles member and viewer, and is refused for admin and owner.
pub require_org_access_iff :
    (now : ℕ) (p : Principal) (org mailbox : ℕ) (min : Role) (db : Db)
    → p.mailbox_id ≡ some mailbox
    → p.org_id ≡ some org
    → (require_org_access now p org min db ≡ ok tt) ↔ ((min ≡ member) ⊎ (min ≡ viewer))
unfolding require_org_access
require_org_access_iff now p org mailbox min db a b = ground arith

-- A role check passes exactly for the callers whose role, that of their membership or else that of
-- a live key of the organization, ranks at least as high as the required one.
pub require_role_iff :
    (now org user : ℕ) (min r : Role) (db : Db)
    → (require_role now org user min db ≡ ok r) ↔ (MayAct now org user db r × (rank min ≤ rank r))
unfolding require_role
require_role_iff now org user min r db = (
  λ h. (find_role-MayAct now org user db r (ground arith), ground arith),
  λ (a, le). ground (arith, MayAct-find_role now org user db r a),
)
