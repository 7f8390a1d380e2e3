-- ===== src/Orgs/Quota.antt =====
-- The storage quota of apps/api/src/orgs/orgs.service.ts.
pub mod Bounds
use justmail.Prelude.{
  ℕ, ◌+◌, Bool, true, false, not, ◌&&◌, List, [], ◌∷◌, ◌++◌, Option, none, some, ltb, ◌==◌,
  if◌then◌else◌, Result, ok, err, not_found, conflict, ◌>>=◌, ◌>>◌, throw_if,
}
use justmail.Prelude.Table.{select, modify, first?, has, count}
use justmail.Store.{admin, viewer, OrgRow, DomainRow, MailboxRow, Db, Principal}
use justmail.Orgs.{require_role}
use justmail.Orgs.Members.{user_event}

-- `OrgQuota`
pub record OrgQuota : Type 0 where
  pub org_id : ℕ
  pub storage_quota_mb : Option ℕ
  pub allocated_mb : ℕ
  pub used_bytes : ℕ
  pub mailbox_count : ℕ

-- The join of `mailboxes` with the domains of the organization.
abbrev pub of_org : ℕ → List DomainRow → MailboxRow → Bool
of_org org ds m = has (λ d. d.id == m.domain_id && d.org_id == org) ds

abbrev pub sum_of {ℓ} : {A : Type ℓ} → (A → ℕ) → List A → ℕ
sum_of f [] = 0
sum_of f (x ∷ xs) = f x + sum_of f xs

abbrev pub quota_of : MailboxRow → ℕ
quota_of m = m.quota_mb

abbrev pub allocated : ℕ → Db → ℕ
allocated org db = sum_of quota_of (select (of_org org db.domains) db.mailboxes)

abbrev pub org_at : ℕ → OrgRow → Bool
org_at org o = o.id == org

abbrev quota_row : ℕ → Db → Option OrgRow → Result OrgQuota
quota_row org db none = err (not_found "Organization not found")
quota_row org db (some o) = ok (record {
  org_id = org;
  storage_quota_mb = o.storage_quota_mb;
  allocated_mb = allocated org db;
  used_bytes =
      sum_of (λ (m : MailboxRow). m.quota_used_bytes) (select (of_org org db.domains) db.mailboxes);
  mailbox_count = count (of_org org db.domains) db.mailboxes;
})

-- `computeQuota`
unfoldable pub compute_quota : ℕ → Db → Result OrgQuota
compute_quota org db = quota_row org db (first? (org_at org) db.orgs)

-- `getQuota`
abbrev pub get_quota : ℕ → ℕ → ℕ → Db → Result OrgQuota
get_quota now org user db = do require_role now org user viewer db; compute_quota org db

-- `storageQuotaMb !== null && storageQuotaMb < usage.allocated_mb`
abbrev below : Option ℕ → ℕ → Bool
below none n = false
below (some q) n = ltb q n

abbrev set_cap : Option ℕ → OrgRow → OrgRow
set_cap quota o = record o { storage_quota_mb = quota }

-- `setQuota`
unfoldable pub set_quota : ℕ → Principal → ℕ → Option ℕ → Db → Result (OrgQuota × Db)
set_quota now p org quota db = do
  require_role now org p.user_id admin db
  usage ← compute_quota org db
  throw_if (below quota usage.allocated_mb) (conflict "Quota below current allocation")
  throw_if (not (has (org_at org) db.orgs)) (not_found "Organization not found")
  ok (
    record usage { storage_quota_mb = quota },
    user_event org p.user_id "org.quota.update" "organization" org
        (record db { orgs = modify (org_at org) (set_cap quota) db.orgs }),
  )

-- `$2::uuid IS NULL OR m.id <> $2`
abbrev pub not_excluded : Option ℕ → MailboxRow → Bool
not_excluded none m = true
not_excluded (some id) m = not (m.id == id)

abbrev pub cap_of : Option OrgRow → Option ℕ
cap_of none = none
cap_of (some o) = o.storage_quota_mb

abbrev check_cap : Option ℕ → ℕ → Result (Unit {0})
check_cap none projected = ok tt
check_cap (some cap) projected =
    throw_if (ltb cap projected) (conflict "Org storage quota exceeded")

-- `assertQuota`
unfoldable pub assert_quota : ℕ → ℕ → Option ℕ → Db → Result (Unit {0})
assert_quota org add_mb exclude_id db = check_cap (cap_of (first? (org_at org) db.orgs)) (
    sum_of quota_of
      (select (λ m. of_org org db.domains m && not_excluded exclude_id m) db.mailboxes)
    + add_mb)
