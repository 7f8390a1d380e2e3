-- ===== src/Domains/Records.antt =====
-- The DNS records that apps/api/src/domains/domains.service.ts keeps for a domain.
use justmail.Domains.{domain_at}
use justmail.Prelude.{Option-cases}
use justmail.Prelude.{
  ℕ, ◌≡◌, true, List, [], ◌∷◌, Option, none, some, Text, codes, arith, refl, ◌==◌, ==_refl, inl,
  inr, Bool-cases, ok, text_eq, text_eq_refl, All,
}
use justmail.Prelude.Table.{select, first?, has}
use justmail.Prelude.Keys.{has-append}
use justmail.Store.{Purpose, DnsRow, Db}
use justmail.Orgs.{require_role, find_role}
use justmail.Domains.{get, get_dns}
use justmail.Domains.Seeds.{
  replace_all, place, same_record, insert_record, record_of, mail_host_records, seed_hosts,
  seed_mail_host_records,
}

same_record_refl : (r : DnsRow) → same_record r r ≡ true
same_record_refl r = ground (
  arith,
  ==_refl r.domain_id,
  ==_refl (place r.purpose),
  text_eq_refl r.name,
  text_eq_refl r.kind,
)

has-insert_record :
    (r x : DnsRow) (rows : List DnsRow)
    → has (same_record x) rows ≡ true
    → has (same_record x) (insert_record r rows) ≡ true
has-insert_record r x rows h = ground (arith, has-append (same_record x) rows (r ∷ []))

inserted : (r : DnsRow) (rows : List DnsRow) → has (same_record r) (insert_record r rows) ≡ true
inserted r rows = ground (arith, same_record_refl r, has-append (same_record r) rows (r ∷ []))

module _ (root ip : Text) (domain : ℕ) where
  abbrev host_record : Purpose × Text → DnsRow
  host_record (purpose, name) =
      record_of domain purpose (codes "A") (replace_all (codes "${MAIL_ROOT}") root name) ip 3600
        none

  has-seed_hosts :
      (x : DnsRow) (hosts : List (Purpose × Text)) (rows : List DnsRow)
      → has (same_record x) rows ≡ true
      → has (same_record x) (seed_hosts root ip domain hosts rows) ≡ true
  has-seed_hosts x [] rows h = h
  has-seed_hosts x ((purpose, name) ∷ hosts) rows h =
      has-seed_hosts x hosts (insert_record (host_record (purpose, name)) rows)
        (has-insert_record (host_record (purpose, name)) x rows h)

  seeded-All :
      (hosts : List (Purpose × Text)) (rows : List DnsRow)
      → All
          (λ h. has (same_record (host_record h)) (seed_hosts root ip domain hosts rows) ≡ true)
          hosts
  seeded-All [] rows = tt
  seeded-All ((purpose, name) ∷ hosts) rows = (
    has-seed_hosts (host_record (purpose, name)) hosts
        (insert_record (host_record (purpose, name)) rows)
        (inserted (host_record (purpose, name)) rows),
    seeded-All hosts (insert_record (host_record (purpose, name)) rows),
  )

  All-there :
      (hosts : List (Purpose × Text)) (rows : List DnsRow)
      → All (λ h. has (same_record (host_record h)) rows ≡ true) hosts
      → seed_hosts root ip domain hosts rows ≡ rows
  All-there [] rows h = refl
  All-there ((purpose, name) ∷ hosts) rows (h, hs) = rw h (All-there hosts rows hs)

seed_idem :
    (root : Text) (ip : Option Text) (domain : ℕ) (rows : List DnsRow)
    → seed_mail_host_records root ip domain (seed_mail_host_records root ip domain rows)
      ≡ seed_mail_host_records root ip domain rows
unfolding seed_mail_host_records
seed_idem root none domain rows = refl
seed_idem root (some ip) domain rows =
    All-there root ip domain mail_host_records (seed_hosts root ip domain mail_host_records rows)
      (seeded-All root ip domain mail_host_records rows)

-- Reading the records of a domain writes the missing ones of the mail hosts where the domain is the
-- platform's own; reading them again answers the same and writes nothing more.
pub get_dns_again :
    (root : Text) (ip : Option Text) (order : List DnsRow → List DnsRow) (now org id user : ℕ)
    (db db' : Db) (rows : List DnsRow)
    → get_dns root ip order now org id user db ≡ ok (rows, db')
    → get_dns root ip order now org id user db' ≡ ok (rows, db')
unfolding get_dns get require_role find_role
get_dns_again root ip order now org id user db db' rows h =
    elim (Option-cases (first? (domain_at org id) db.domains)) [
      | inl missing ↦ absurd (ground arith)
      | inr (d, there) ↦ elim (Bool-cases (text_eq d.name root)) [
        | inl own ↦
            let seeded = seed_mail_host_records root ip d.id db.dns_records in
            let written : Db = record db { dns_records = seeded } in
            let same : db' ≡ written = ground (arith, there, own) in
            let told : rows ≡ order (select (λ r. r.domain_id == id) seeded) =
              ground (arith, there, own) in
            rw (same, told) (ground (arith, there, own, seed_idem root ip d.id db.dns_records))
        | inr other ↦ let same : db' ≡ db = ground (arith, there, other) in rw same (rw same at h)
      ]
    ]
