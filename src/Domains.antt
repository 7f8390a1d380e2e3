-- ===== src/Domains.antt =====
-- apps/api/src/domains/domains.service.ts: the domains of an organization and their verification.
-- `resolveTxt` and the random token are arguments, `root` is `mailRoot` and `ip` is JM_PUBLIC_IP4.
pub mod Seeds
pub mod Change
pub mod Primary
pub mod Activation
pub mod Records
pub mod Bimi
pub mod Logos
pub mod Branding
use justmail.Prelude.{
  ℕ, Bool, true, false, not, ◌&&◌, ◌||◌, List, [], ◌∷◌, ◌++◌, map, Option, none, some, Text, codes,
  text_eq, ltb, ◌==◌, if◌then◌else◌, Result, ok, err, not_found, conflict, server_error, ◌>>=◌,
  ◌>>◌, throw_if,
}
use justmail.Prelude.Table.{select, exclude, modify, first?, has, count}
use justmail.Prelude.Texts.{to_lower, join, split}
use justmail.Store.{
  admin, member, viewer, DomainStatus, pending_verification, verifying, active_domain,
  suspended_domain, OutboundMode, inherit, DomainRow, DnsRow, for_verification, CheckStatus,
  checked_ok, drifted, missing, GroupRow, GroupMemberRow, domain_verified, Db, Principal,
}
use justmail.Orgs.{require_role, is_none}
use justmail.Orgs.Members.{user_event}
use justmail.Mailboxes.{domain_at, in_domain}
use justmail.Aliases.{or_kept}
use justmail.Webhooks.{emit}
use justmail.Domains.Seeds.{seed_dns_records, seed_mail_host_records}

-- The row with the number of its mailboxes.
pub record Domain : Type 0 where
  pub row : DomainRow
  pub mailbox_count : ℕ

abbrev pub with_count : Db → DomainRow → Domain
with_count db d = record { row = d; mailbox_count = count (in_domain d.id) db.mailboxes }

-- `list`
unfoldable pub list : ℕ → ℕ → ℕ → Db → Result (List Domain)
list now org user db = do
  require_role now org user viewer db
  ok (map (with_count db) (select (λ d. d.org_id == org) db.domains))

abbrev pub found : Db → Option DomainRow → Result Domain
found db none = err (not_found "Domain not found")
found db (some d) = ok (with_count db d)

-- `get`
unfoldable pub get : ℕ → ℕ → ℕ → ℕ → Db → Result Domain
get now org domain user db = do
  require_role now org user viewer db
  found db (first? (domain_at org domain) db.domains)

abbrev pub is_set : Option Bool → Bool
is_set none = false
is_set (some b) = b

-- `SET is_primary = false`
abbrev pub demoted : DomainRow → DomainRow
demoted d = record d { is_primary = false }

abbrev pub new_domain : ℕ → ℕ → Text → Text → Bool → DomainRow
new_domain id org name token primary = record {
  id = id;
  org_id = org;
  name = name;
  status = pending_verification;
  verification_token = token;
  is_primary = primary;
  catch_all_target = none;
  max_mailboxes = none;
  max_quota_mb = none;
  outbound_mode = inherit;
  bimi_logo_key = none;
}

-- A row with the same primary key, or the same unique name, a `citext`.
abbrev pub taken : ℕ → Text → DomainRow → Bool
taken id name d = d.id == id || text_eq (to_lower d.name) (to_lower name)

abbrev pub primary_of : ℕ → DomainRow → Bool
primary_of org d = d.org_id == org && d.is_primary

-- The first statement of the transactions of `create` and `update`.
abbrev pub demote : Bool → (DomainRow → Bool) → List DomainRow → List DomainRow
demote false p ds = ds
demote true p ds = modify p demoted ds

module _ (root : Text) (ip : Option Text) where
  -- `create`
  unfoldable pub create :
      ℕ → ℕ → Text → Principal → ℕ → Text → Option Bool → Db → Result (Domain × Db)
  create now id token p org name primary db = do
    require_role now org p.user_id admin db
    let lowered = to_lower name
    throw_if (has (taken id lowered) db.domains) (conflict "Domain already in use")
    let db' = user_event org p.user_id "domain.create" "domain" id (record db {
      domains =
          demote (is_set primary) (primary_of org) db.domains
          ++ new_domain id org lowered token (is_set primary) ∷ [];
      dns_records = seed_dns_records root ip id lowered token db.dns_records;
    })
    created ← get now org id p.user_id db'
    ok (created, db')

-- `UpdateDomainRequest`
pub record UpdateDomain : Type 0 where
  pub is_primary : Option Bool
  pub catch_all_target : Option (Option Text)
  pub max_mailboxes : Option (Option ℕ)
  pub max_quota_mb : Option (Option ℕ)
  pub outbound_mode : Option OutboundMode
  pub retention_days : Option (Option ℕ)
  pub status : Option DomainStatus

abbrev pub apply_update : UpdateDomain → DomainRow → DomainRow
apply_update req d = record d {
  is_primary = or_kept req.is_primary d.is_primary;
  catch_all_target = or_kept req.catch_all_target d.catch_all_target;
  max_mailboxes = or_kept req.max_mailboxes d.max_mailboxes;
  max_quota_mb = or_kept req.max_quota_mb d.max_quota_mb;
  outbound_mode = or_kept req.outbound_mode d.outbound_mode;
  status = or_kept req.status d.status;
}

abbrev pub other_primary : ℕ → ℕ → DomainRow → Bool
other_primary org id d = d.org_id == org && not (d.id == id) && d.is_primary

-- `update`; the table has no column `retention_days`, and no handler answers the database's error.
unfoldable pub update : ℕ → Principal → ℕ → ℕ → UpdateDomain → Db → Result (Domain × Db)
update now p org id req db = do
  require_role now org p.user_id admin db
  old ← get now org id p.user_id db
  throw_if (not (is_none req.retention_days)) (server_error "no column retention_days")
  let db' = user_event org p.user_id "domain.update" "domain" id (record db {
    domains =
        modify (λ d. d.id == id) (apply_update req)
          (demote (is_set req.is_primary) (other_primary org id) db.domains);
  })
  written ← get now org id p.user_id db'
  ok (written, db')

abbrev pub group_of : ℕ → List GroupRow → GroupMemberRow → Bool
group_of domain gs m = has (λ g. g.domain_id == domain && g.id == m.group_id) gs

-- `DELETE FROM domains`, with the cascades to the tables that are modelled.
abbrev pub delete_domain : ℕ → Db → Db
delete_domain id db = record db {
  domains = exclude (λ d. d.id == id) db.domains;
  mailboxes = exclude (in_domain id) db.mailboxes;
  aliases = exclude (λ a. a.domain_id == id) db.aliases;
  groups = exclude (λ g. g.domain_id == id) db.groups;
  group_members = exclude (group_of id db.groups) db.group_members;
  dns_records = exclude (λ r. r.domain_id == id) db.dns_records;
}

-- `remove`
unfoldable pub remove : ℕ → Principal → ℕ → ℕ → Db → Result Db
remove now p org id db = do
  require_role now org p.user_id admin db
  d ← get now org id p.user_id db
  throw_if (ltb 0 d.mailbox_count) (conflict "Domain has mailboxes")
  ok (user_event org p.user_id "domain.delete" "domain" id (delete_domain id db))

-- What `resolveTxt` answers, or the message of its error.
pub data Resolved : Type 0 where
  records : List (List Text) → Resolved
  failed : Text → Resolved

-- `records.map((r) => r.join(""))`
abbrev pub flat : Resolved → List Text
flat (records rs) = map (join []) rs
flat (failed message) = []

abbrev pub observed : Resolved → Text
observed (records rs) = join (codes "; ") (flat (records rs))
observed (failed message) = message

abbrev pub verify_name : Text → Text
verify_name name = codes "_justmail-verify." ++ name

abbrev pub expected : DomainRow → Text
expected d = codes "justmail-verify=" ++ d.verification_token

-- Whether a record is the expected one.
abbrev pub is_proved : (Text → Resolved) → DomainRow → Bool
is_proved resolve_txt d = has (text_eq (expected d)) (flat (resolve_txt (verify_name d.name)))

abbrev pub is_active : DomainStatus → Bool
is_active active_domain = true
is_active _ = false

abbrev pub next_status : Bool → DomainStatus → DomainStatus
next_status proved status =
    if proved then active_domain else if is_active status then active_domain else verifying

abbrev pub check_of : Bool → Text → CheckStatus
check_of true seen = checked_ok
check_of false [] = missing
check_of false (c ∷ seen) = drifted

abbrev pub checks_domain : ℕ → DnsRow → Bool
checks_domain id r = r.domain_id == id && (elim r.purpose [ for_verification ↦ true | _ ↦ false ])

abbrev pub checked : ℕ → CheckStatus → Text → DnsRow → DnsRow
checked now status seen r = record r {
  check_status = status;
  observed_content = some seen;
  last_checked_at = some now;
}

abbrev pub set_status : DomainStatus → DomainRow → DomainRow
set_status status d = record d { status = status }

module _ (root : Text) (ip : Option Text) (order : List DnsRow → List DnsRow) where
  -- The backfill of `getDns`, for the domain of the platform itself.
  abbrev pub backfill : DomainRow → Db → Db
  backfill d db =
      if text_eq d.name root
      then record db { dns_records = seed_mail_host_records root ip d.id db.dns_records }
      else db

  -- `getDns`
  unfoldable pub get_dns : ℕ → ℕ → ℕ → ℕ → Db → Result (List DnsRow × Db)
  get_dns now org id user db = do
    require_role now org user viewer db
    d ← get now org id user db
    let db' = backfill d.row db
    ok (order (select (λ r. r.domain_id == id) db'.dns_records), db')

  -- The transaction of `verify`.
  abbrev pub mark_verified : ℕ → Bool → Text → DomainRow → Db → Db
  mark_verified now proved seen d db = record db {
    dns_records =
        modify (checks_domain d.id) (checked now (check_of proved seen) seen) db.dns_records;
    domains = modify (λ x. x.id == d.id) (set_status (next_status proved d.status)) db.domains;
  }

  -- The writes of `verify`: the transaction, the audit log, and the event for a domain that is
  -- active for the first time.
  abbrev pub settle_verify :
      (ℕ → ℕ) → (Text → Resolved) → ℕ → Principal → ℕ → ℕ → DomainRow → Db → Db
  settle_verify fresh resolve_txt now p org id d db =
      let proved = is_proved resolve_txt d in
      let marked =
        user_event org p.user_id "domain.verify" "domain" id
          (mark_verified now proved (observed (resolve_txt (verify_name d.name))) d db) in
      if proved && not (is_active d.status)
      then emit fresh now org "domain.verified" (domain_verified id d.name) marked
      else marked

  -- `verify`: the status, the records and the tables.
  unfoldable pub verify :
      (ℕ → ℕ)
      → (Text → Resolved)
      → ℕ
      → Principal
      → ℕ
      → ℕ
      → Db
      → Result ((DomainStatus × List DnsRow) × Db)
  verify fresh resolve_txt now p org id db = do
    require_role now org p.user_id member db
    d ← get now org id p.user_id db
    answer ← get_dns now org id p.user_id (settle_verify fresh resolve_txt now p org id d.row db)
    ok ((next_status (is_proved resolve_txt d.row) d.row.status, answer.0), answer.1)
