-- ===== src/Orgs/Members/Joining.antt =====
-- `create`, `update`, `remove` and `addMember` of apps/api/src/orgs/orgs.service.ts and the invariant
-- `IsSound`.
use justmail.Prelude.{
  ℕ, ◌≤◌, ◌≡◌, Bool, false, List, [], ◌∷◌, ◌++◌, Option, none, some, Option-cases, arith, ◌==◌,
  refl, inl, inr, ok, Text,
}
use justmail.Prelude.Table.{exclude, modify, first?, has, count-append}
use justmail.Store.{Role, owner, OrgRow, UserRow, MemberRow, Db, Principal, member_at, owner_of}
use justmail.Orgs.Members.{new_org, new_member, slug_of, create, update, rename, remove, add_member}
use justmail.Orgs.Members.Owners.{owners, owners-delete_ne, IsKeyed-delete, IsKeyed-append}
use justmail.Orgs.Members.Sound.{IsOwned, IsSound, IsOwned-mono}

append-keeps :
    (ms : List MemberRow) (x : MemberRow) (o : ℕ) → 1 ≤ owners o ms → 1 ≤ owners o (ms ++ x ∷ [])
append-keeps ms x o h = omega (arith, count-append (owner_of o) ms (x ∷ []))

-- The organization's own row of the founder.
founded : (ms : List MemberRow) (id user : ℕ) → 1 ≤ owners id (ms ++ new_member id user owner ∷ [])
founded ms id user = ground (arith, count-append (owner_of id) ms (new_member id user owner ∷ []))

IsOwned-append :
    (ms : List MemberRow) (os : List OrgRow) (o : OrgRow)
    → IsOwned ms os
    → 1 ≤ owners o.id ms
    → IsOwned ms (os ++ o ∷ [])
IsOwned-append ms [] o h k = (k, tt)
IsOwned-append ms (x ∷ os) o (p, h) k = (p, IsOwned-append ms os o h k)

absent_member :
    (org user : ℕ) (ms : List MemberRow)
    → has (λ m. m.org_id == org) ms ≡ false
    → has (member_at org user) ms ≡ false
absent_member org user [] h = refl
absent_member org user (m ∷ ms) h = ground (arith, absent_member org user ms)

-- A fresh uuid: no membership refers to it.
abbrev pub IsFresh : ℕ → Db → Type 0
IsFresh id db = has (λ m. m.org_id == id) db.members ≡ false

create-eq-ok :
    (fold : Text → Text) (fallback : Text) (now id : ℕ) (p : Principal) (name : Text)
    (slug : Option Text) (db db' : Db)
    → create fold fallback now id p name slug db ≡ ok db'
    → (db'.orgs ≡ db.orgs ++ new_org now id name (slug_of fold fallback name slug) ∷ [])
      × (db'.members ≡ db.members ++ new_member id p.user_id owner ∷ [])
unfolding create
create-eq-ok fold fallback now id p name slug db db' h = ground arith

-- Founding an organization keeps the key and gives it an owner.
pub create-IsSound :
    (fold : Text → Text) (fallback : Text) (now id : ℕ) (p : Principal) (name : Text)
    (slug : Option Text) (db db' : Db)
    → IsSound db
    → IsFresh id db
    → create fold fallback now id p name slug db ≡ ok db'
    → IsSound db'
create-IsSound fold fallback now id p name slug db db' s fresh h =
    let (os, ms) = create-eq-ok fold fallback now id p name slug db db' h in
    record {
      keyed =
          rw ms (IsKeyed-append db.members _ s.keyed (absent_member id p.user_id db.members fresh));
      owned =
          rw (ms, os)
            (IsOwned-append _ db.orgs _
              (IsOwned-mono db.members _ db.orgs (append-keeps db.members _) s.owned)
              (founded db.members id p.user_id));
    }

pub add_member-eq-ok :
    (same_email : Text → Text → Bool) (now : ℕ) (p : Principal) (org : ℕ) (email : Text)
    (role : Role) (db db' : Db)
    → add_member same_email now p org email role db ≡ ok db'
    → (u : UserRow) × (first? (λ u. same_email u.email email) db.users ≡ some u)
      × (has (member_at org u.id) db.members ≡ false)
      × (db'.members ≡ db.members ++ new_member org u.id role ∷ [])
      × (db'.orgs ≡ db.orgs)
unfolding add_member
add_member-eq-ok same_email now p org email role db db' h =
    elim (Option-cases (first? (λ u. same_email u.email email) db.users)) [
      | inl missing ↦ absurd (ground arith)
      | inr (u, found) ↦ (u, found, ground arith, ground arith, ground arith)
    ]

-- Adding a member keeps the key and the owners.
pub add_member-IsSound :
    (same_email : Text → Text → Bool) (now : ℕ) (p : Principal) (org : ℕ) (email : Text)
    (role : Role) (db db' : Db)
    → IsSound db
    → add_member same_email now p org email role db ≡ ok db'
    → IsSound db'
add_member-IsSound same_email now p org email role db db' s h =
    let (u, _, absent, ms, os) = add_member-eq-ok same_email now p org email role db db' h in
    record {
      keyed = rw ms (IsKeyed-append db.members _ s.keyed absent);
      owned = rw (ms, os) (IsOwned-mono db.members _ db.orgs (append-keeps db.members _) s.owned);
    }

IsOwned-rename :
    (ms : List MemberRow) (org : ℕ) (name : Option Text) (os : List OrgRow)
    → IsOwned ms os
    → IsOwned ms (modify (λ o. o.id == org) (rename name) os)
IsOwned-rename ms org none [] h = tt
IsOwned-rename ms org (some n) [] h = tt
IsOwned-rename ms org none (o ∷ os) (p, h) = ground (arith, IsOwned-rename ms org none os h)
IsOwned-rename ms org (some n) (o ∷ os) (p, h) = ground (arith, IsOwned-rename ms org (some n) os h)

pub update-IsSound :
    (now : ℕ) (p : Principal) (org : ℕ) (name : Option Text) (db db' : Db)
    → IsSound db
    → update now p org name db ≡ ok db'
    → IsSound db'
unfolding update
update-IsSound now p org name db db' s h =
    let parts : (db'.members ≡ db.members)
        × (db'.orgs ≡ modify (λ o. o.id == org) (rename name) db.orgs) =
      ground arith in
    record {
      keyed = rw parts.0 s.keyed;
      owned = rw (parts.0, parts.1) (IsOwned-rename db.members org name db.orgs s.owned);
    }

IsOwned-delete :
    (ms : List MemberRow) (org : ℕ) (os : List OrgRow)
    → IsOwned ms os
    → IsOwned (exclude (λ m. m.org_id == org) ms) (exclude (λ o. o.id == org) os)
IsOwned-delete ms org [] h = tt
IsOwned-delete ms org (o ∷ os) (p, h) =
    ground (arith, IsOwned-delete ms org os h, owners-delete_ne org o.id ms)

pub remove-IsSound :
    (now : ℕ) (p : Principal) (org : ℕ) (db db' : Db)
    → IsSound db
    → remove now p org db ≡ ok db'
    → IsSound db'
unfolding remove
remove-IsSound now p org db db' s h =
    let parts : (db'.members ≡ exclude (λ m. m.org_id == org) db.members)
        × (db'.orgs ≡ exclude (λ o. o.id == org) db.orgs) =
      ground arith in
    record {
      keyed = rw parts.0 (IsKeyed-delete org db.members s.keyed);
      owned = rw (parts.0, parts.1) (IsOwned-delete db.members org db.orgs s.owned);
    }
