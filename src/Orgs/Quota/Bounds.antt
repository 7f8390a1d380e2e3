-- ===== src/Orgs/Quota/Bounds.antt =====
-- The storage ceiling of apps/api/src/orgs/orgs.service.ts, and `setQuota`.
use justmail.Prelude.{
  ℕ, ◌≤◌, ◌≡◌, ◌≢◌, List, [], ◌∷◌, Option, some, arith, refl, inl, inr, Option-cases, Result-cases,
  ok,
}
use justmail.Prelude.Table.{modify, first?}
use justmail.Store.{OrgRow, Db, Principal}
use justmail.Orgs.Quota.{OrgQuota, allocated, org_at, compute_quota, set_cap, set_quota, cap_of}

-- The mailboxes of the organization are allocated no more than its ceiling, if it has one.
abbrev pub WithinQuota : ℕ → Db → Type 0
WithinQuota org db =
    (cap : ℕ) → cap_of (first? (org_at org) db.orgs) ≡ some cap → allocated org db ≤ cap

first?-set_cap :
    (org : ℕ) (quota : Option ℕ) (os : List OrgRow) (o : OrgRow)
    → first? (org_at org) os ≡ some o
    → cap_of (first? (org_at org) (modify (org_at org) (set_cap quota) os)) ≡ quota
first?-set_cap org quota [] o h = cc
first?-set_cap org quota (x ∷ os) o h = ground (arith, first?-set_cap org quota os o)

first?-set_cap_ne :
    (org other : ℕ) (quota : Option ℕ) (os : List OrgRow)
    → other ≢ org
    → first? (org_at other) (modify (org_at org) (set_cap quota) os) ≡ first? (org_at other) os
first?-set_cap_ne org other quota [] h = refl
first?-set_cap_ne org other quota (x ∷ os) h = ground (arith, first?-set_cap_ne org other quota os)

compute_quota-eq-ok :
    (org : ℕ) (db : Db) (u : OrgQuota)
    → compute_quota org db ≡ ok u
    → (o : OrgRow) × (first? (org_at org) db.orgs ≡ some o) × (u.allocated_mb ≡ allocated org db)
unfolding compute_quota
compute_quota-eq-ok org db u h = elim (Option-cases (first? (org_at org) db.orgs)) [
  | inl missing ↦ absurd (ground arith)
  | inr (o, found) ↦ (o, found, ground arith)
]

set_quota-eq-ok :
    (now : ℕ) (p : Principal) (org : ℕ) (quota : Option ℕ) (db db' : Db) (u : OrgQuota)
    → set_quota now p org quota db ≡ ok (u, db')
    → (v : OrgQuota) × (compute_quota org db ≡ ok v)
      × ((cap : ℕ) → quota ≡ some cap → v.allocated_mb ≤ cap)
      × (db'.orgs ≡ modify (org_at org) (set_cap quota) db.orgs)
      × (db'.mailboxes ≡ db.mailboxes)
      × (db'.domains ≡ db.domains)
unfolding set_quota
set_quota-eq-ok now p org quota db db' u h = elim (Result-cases (compute_quota org db)) [
  | inr (e, failed) ↦ absurd (ground arith)
  | inl (v, computed) ↦
      (v, computed, λ cap q. ground arith, ground arith, ground arith, ground arith)
]

-- When a new ceiling is accepted it is the one in force, the mailboxes of the organization are
-- allocated no more than it, and every other organization that was within its own ceiling still
-- is.
pub set_quota-WithinQuota :
    (now : ℕ) (p : Principal) (org : ℕ) (quota : Option ℕ) (db db' : Db) (u : OrgQuota)
    → set_quota now p org quota db ≡ ok (u, db')
    → (cap_of (first? (org_at org) db'.orgs) ≡ quota)
      × WithinQuota org db'
      × ((other : ℕ) → other ≢ org → WithinQuota other db → WithinQuota other db')
set_quota-WithinQuota now p org quota db db' u h =
    let (v, computed, fits, os, ms, ds) = set_quota-eq-ok now p org quota db db' u h in
    let (o, found, all) = compute_quota-eq-ok org db v computed in
    let cap = first?-set_cap org quota db.orgs o found in
    (
      rw os cap,
      λ c e. rw (ms, ds) (rw (← all) (fits c (ground arith))),
      λ other ne within c e.
          rw (ms, ds) (within c (ground (arith, first?-set_cap_ne org other quota db.orgs ne))),
    )
