-- ===== src/Mailboxes/Quotas.antt =====
-- `create` of apps/api/src/mailboxes/mailboxes.service.ts and the storage ceiling of organizations.
use justmail.Prelude.{
  ℕ, ◌+◌, ◌≤◌, ◌≡◌, ◌≢◌, Bool, true, false, ◌&&◌, List, [], ◌∷◌, ◌++◌, Option, none, some, arith,
  Text, ◌==◌, if◌then◌else◌, refl, inl, inr, Bool-cases, ok,
}
use justmail.Prelude.Texts.{to_lower}
use justmail.Prelude.Table.{select, first?, has}
use justmail.Store.{DomainRow, MailboxRow, Db, Principal}
use justmail.Orgs.Quota.{of_org, sum_of, quota_of, org_at, not_excluded, cap_of, assert_quota}
use justmail.Orgs.Quota.Bounds.{WithinQuota}
use justmail.Webhooks.{emit}
use justmail.Mailboxes.{domain_at, assert_domain, enforce_limits, new_mailbox, create, Joined}

-- The primary key of `domains`.
abbrev pub AreKeyed : List DomainRow → Type 0
AreKeyed [] = Unit
AreKeyed (d ∷ ds) = (has (λ e. e.id == d.id) ds ≡ false) × AreKeyed ds

absent_domain :
    (org domain : ℕ) (ds : List DomainRow)
    → has (λ e. e.id == domain) ds ≡ false
    → has (domain_at org domain) ds ≡ false
absent_domain org domain [] h = refl
absent_domain org domain (d ∷ ds) h = ground (arith, absent_domain org domain ds)

-- A domain belongs to one organization.
pub one_org :
    (org other domain : ℕ) (ds : List DomainRow)
    → AreKeyed ds
    → has (domain_at org domain) ds ≡ true
    → other ≢ org
    → has (domain_at other domain) ds ≡ false
one_org org other domain [] k h ne = refl
one_org org other domain (d ∷ ds) (j, k) h ne =
    ground
      (arith, one_org org other domain ds k, absent_domain org d.id ds, absent_domain other d.id ds)

sum-select_append :
    (p : MailboxRow → Bool) (ms : List MailboxRow) (x : MailboxRow)
    → sum_of quota_of (select p (ms ++ x ∷ []))
      ≡ sum_of quota_of (select p ms) + (if p x then x.quota_mb else 0)
sum-select_append p [] x = ground arith
sum-select_append p (m ∷ ms) x = ground (arith, sum-select_append p ms x)

sum-none_excluded :
    (p : MailboxRow → Bool) (ms : List MailboxRow)
    → sum_of quota_of (select (λ m. p m && not_excluded none m) ms) ≡ sum_of quota_of (select p ms)
sum-none_excluded p [] = refl
sum-none_excluded p (m ∷ ms) = ground (arith, sum-none_excluded p ms)

pub assert_quota-eq-ok :
    (org add : ℕ) (ex : Option ℕ) (db : Db) (cap : ℕ)
    → assert_quota org add ex db ≡ ok tt
    → cap_of (first? (org_at org) db.orgs) ≡ some cap
    → sum_of quota_of (select (λ m. of_org org db.domains m && not_excluded ex m) db.mailboxes)
        + add
      ≤ cap
unfolding assert_quota
assert_quota-eq-ok org add ex db cap h e = ground arith

pub create-eq-ok :
    (fresh : ℕ → ℕ) (now id : ℕ) (hash : Text) (p : Principal) (org domain : ℕ)
    (local_part name : Text) (quota_mb : ℕ) (db db' : Db) (box : Joined)
    → create fresh now id hash p org domain local_part name quota_mb db ≡ ok (box, db')
    → (has (domain_at org domain) db.domains ≡ true)
      × (enforce_limits domain db ≡ ok tt)
      × (assert_quota org quota_mb none db ≡ ok tt)
      × (db'.mailboxes
          ≡ db.mailboxes ++ new_mailbox id domain (to_lower local_part) name hash quota_mb ∷ [])
      × (db'.orgs ≡ db.orgs)
      × (db'.domains ≡ db.domains)
unfolding create assert_domain emit
create-eq-ok fresh now id hash p org domain local_part name quota_mb db db' box h = ground arith

-- Where the ids of domains are distinct, an organization whose mailboxes are allocated no more
-- than its ceiling is within it still after a mailbox was created, in it or in another
-- organization.
pub create-WithinQuota :
    (fresh : ℕ → ℕ) (now id : ℕ) (hash : Text) (p : Principal) (org domain : ℕ)
    (local_part name : Text) (quota_mb : ℕ) (db db' : Db) (box : Joined) (other : ℕ)
    → AreKeyed db.domains
    → WithinQuota other db
    → create fresh now id hash p org domain local_part name quota_mb db ≡ ok (box, db')
    → WithinQuota other db'
create-WithinQuota fresh now id hash p org domain local_part name quota_mb db db' box other keyed
      within h cap e =
    let (here, _, fits, ms, os, ds) =
      create-eq-ok fresh now id hash p org domain local_part name quota_mb db db' box h in
    let row = new_mailbox id domain (to_lower local_part) name hash quota_mb in
    let ceiling : cap_of (first? (org_at other) db.orgs) ≡ some cap = rw os at e in
    let grown = sum-select_append (of_org other db.domains) db.mailboxes row in
    rw (ms, ds)
      (rw grown (elim (Bool-cases (other == org)) [
        | inl same ↦
            let eq : other ≡ org = ground arith in
            ground (
              arith,
              assert_quota-eq-ok org quota_mb none db cap fits,
              sum-none_excluded (of_org org db.domains) db.mailboxes,
            )
        | inr differ ↦
            ground (arith, one_org org other domain db.domains keyed here, within cap ceiling)
      ]))
