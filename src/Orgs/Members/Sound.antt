-- ===== src/Orgs/Members/Sound.antt =====
-- The invariant `IsSound`, and `updateMember` and `removeMember` of apps/api/src/orgs/orgs.service.ts.
use justmail.Prelude.{
  ℕ, ◌+◌, ◌≤◌, ◌≡◌, ◌≢◌, List, [], ◌∷◌, arith, ◌==◌, All, inl, inr, Bool-cases, ok,
}
use justmail.Prelude.Table.{exclude, modify, first?}
use justmail.Store.{Role, OrgRow, MemberRow, Db, Principal, member_at}
use justmail.Orgs.Members.{set_role, is_owner_row, guard_last_owner, update_member, remove_member}
use justmail.Orgs.Members.Owners.{
  IsKeyed, owners, weight, owners-exclude, owners-modify, owners-exclude_ne, owners-modify_ne,
  IsKeyed-exclude, IsKeyed-modify,
}

-- Each listed organization has an owner among the members.
abbrev pub IsOwned : List MemberRow → List OrgRow → Type 0
IsOwned ms = All (λ o. 1 ≤ owners o.id ms)

pub record IsSound (db : Db) : Type 0 where
  pub keyed : IsKeyed db.members
  pub owned : IsOwned db.members db.orgs

-- Members may change as long as each organization that had an owner has one still.
pub IsOwned-mono :
    (ms ns : List MemberRow) (os : List OrgRow)
    → ((o : ℕ) → 1 ≤ owners o ms → 1 ≤ owners o ns)
    → IsOwned ms os
    → IsOwned ns os
IsOwned-mono ms ns [] keep h = tt
IsOwned-mono ms ns (o ∷ os) keep (p, h) = (keep o.id p, IsOwned-mono ms ns os keep h)

-- What `guardLastOwner` lets pass leaves an owner when one row is taken.
guard_leaves :
    (org user : ℕ) (db : Db) (n : ℕ)
    → guard_last_owner org user db ≡ ok tt
    → owners org db.members ≤ n + weight (is_owner_row (first? (member_at org user) db.members))
    → 1 ≤ owners org db.members
    → 1 ≤ n
unfolding guard_last_owner
guard_leaves org user db n g h k = ground arith

exclude-keeps :
    (org user : ℕ) (db : Db)
    → guard_last_owner org user db ≡ ok tt
    → IsKeyed db.members
    → (o : ℕ) → 1 ≤ owners o db.members
    → 1 ≤ owners o (exclude (member_at org user) db.members)
exclude-keeps org user db g keyed o h = elim (Bool-cases (o == org)) [
  | inl same ↦
      let e : o ≡ org = ground arith in
      rw e (guard_leaves org user db _ g (owners-exclude org user db.members keyed) (rw e at h))
  | inr other ↦ let ne : o ≢ org = ground arith in rw (owners-exclude_ne org user o db.members ne) h
]

modify-keeps :
    (org user : ℕ) (role : Role) (db : Db)
    → guard_last_owner org user db ≡ ok tt
    → IsKeyed db.members
    → (o : ℕ) → 1 ≤ owners o db.members
    → 1 ≤ owners o (modify (member_at org user) (set_role role) db.members)
modify-keeps org user role db g keyed o h = elim (Bool-cases (o == org)) [
  | inl same ↦
      let e : o ≡ org = ground arith in
      rw e (guard_leaves org user db _ g (owners-modify org user role db.members keyed) (rw e at h))
  | inr other ↦
      let ne : o ≢ org = ground arith in rw (owners-modify_ne org user o role db.members ne) h
]

pub update_member-eq-ok :
    (now : ℕ) (p : Principal) (org user : ℕ) (role : Role) (db db' : Db)
    → update_member now p org user role db ≡ ok db'
    → (guard_last_owner org user db ≡ ok tt)
      × (db'.members ≡ modify (member_at org user) (set_role role) db.members)
      × (db'.orgs ≡ db.orgs)
unfolding update_member
update_member-eq-ok now p org user role db db' h = ground arith

pub remove_member-eq-ok :
    (now : ℕ) (p : Principal) (org user : ℕ) (db db' : Db)
    → remove_member now p org user db ≡ ok db'
    → (guard_last_owner org user db ≡ ok tt)
      × (db'.members ≡ exclude (member_at org user) db.members)
      × (db'.orgs ≡ db.orgs)
unfolding remove_member
remove_member-eq-ok now p org user db db' h = ground arith

-- Changing a member's role keeps an owner in every organization.
pub update_member-IsSound :
    (now : ℕ) (p : Principal) (org user : ℕ) (role : Role) (db db' : Db)
    → IsSound db
    → update_member now p org user role db ≡ ok db'
    → IsSound db'
update_member-IsSound now p org user role db db' s h =
    let (g, ms, os) = update_member-eq-ok now p org user role db db' h in
    record {
      keyed = rw ms (IsKeyed-modify org user role db.members s.keyed);
      owned =
          rw (ms, os)
            (IsOwned-mono db.members _ db.orgs (modify-keeps org user role db g s.keyed) s.owned);
    }

-- Removing a member keeps an owner in every organization.
pub remove_member-IsSound :
    (now : ℕ) (p : Principal) (org user : ℕ) (db db' : Db)
    → IsSound db
    → remove_member now p org user db ≡ ok db'
    → IsSound db'
remove_member-IsSound now p org user db db' s h =
    let (g, ms, os) = remove_member-eq-ok now p org user db db' h in
    record {
      keyed = rw ms (IsKeyed-exclude org user db.members s.keyed);
      owned =
          rw (ms, os)
            (IsOwned-mono db.members _ db.orgs (exclude-keeps org user db g s.keyed) s.owned);
    }
