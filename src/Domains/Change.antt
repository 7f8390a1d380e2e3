-- ===== src/Domains/Change.antt =====
-- The requests of apps/api/src/domains/domains.service.ts that change the domains.
use justmail.Prelude.{
  ℕ, ◌≡◌, Bool, false, List, [], ◌∷◌, ◌++◌, ◌⊎◌, Option, some, none, Text, arith, ◌∙◌, ◌==◌, inl,
  inr, Option-cases, Result-cases, ok,
}
use justmail.Prelude.Table.{modify, exclude, first?, has}
use justmail.Prelude.Texts.{to_lower}
use justmail.Store.{DomainStatus, DomainRow, DnsRow, Db, Principal}
use justmail.Mailboxes.{domain_at}
use justmail.Webhooks.{emit}
use justmail.Domains.Logos.{
  Storage, BimiStatus, upload_bimi, remove_bimi, set_logo, storage_key, truthy,
}
use justmail.Domains.{
  Domain, is_set, new_domain, taken, primary_of, demote, UpdateDomain, apply_update, other_primary,
  get, create, update, remove, set_status, Resolved, is_proved, next_status, verify, get_dns,
  settle_verify,
}

-- A request that succeeded, with the tables before and after it.
pub data Change (root : Text) (ip : Option Text) (db db' : Db) : Type 0 where
  by_create :
      (now id : ℕ) (token : Text) (p : Principal) (org : ℕ) (name : Text) (primary : Option Bool)
      (d : Domain)
      → create root ip now id token p org name primary db ≡ ok (d, db')
      → Change root ip db db'
  by_update :
      (now : ℕ) (p : Principal) (org id : ℕ) (req : UpdateDomain) (d : Domain)
      → update now p org id req db ≡ ok (d, db')
      → Change root ip db db'
  by_remove :
      (now : ℕ) (p : Principal) (org id : ℕ)
      → remove now p org id db ≡ ok db'
      → Change root ip db db'
  by_verify :
      (order : List DnsRow → List DnsRow) (fresh : ℕ → ℕ) (resolve_txt : Text → Resolved) (now : ℕ)
      (p : Principal) (org id : ℕ) (answer : DomainStatus × List DnsRow)
      → verify root ip order fresh resolve_txt now p org id db ≡ ok (answer, db')
      → Change root ip db db'
  by_upload_bimi :
      (decode base64 : Text → Text) (print : ℕ → Text) (now : ℕ) (p : Principal) (org id : ℕ)
      (body : Text) (kind : Option Text) (storage storage' : Storage) (status : BimiStatus)
      → upload_bimi decode base64 print now p org id body kind storage db
        ≡ ok (status, (storage', db'))
      → Change root ip db db'
  by_remove_bimi :
      (decode base64 : Text → Text) (print : ℕ → Text) (now : ℕ) (p : Principal) (org id : ℕ)
      (storage storage' : Storage) (status : BimiStatus)
      → remove_bimi decode base64 print now p org id storage db ≡ ok (status, (storage', db'))
      → Change root ip db db'

pub create-eq-ok :
    (root : Text) (ip : Option Text) (now id : ℕ) (token : Text) (p : Principal) (org : ℕ)
    (name : Text) (primary : Option Bool) (d : Domain) (db db' : Db)
    → create root ip now id token p org name primary db ≡ ok (d, db')
    → (db'.domains
        ≡ demote (is_set primary) (primary_of org) db.domains
          ++ new_domain id org (to_lower name) token (is_set primary) ∷ [])
      × (has (taken id (to_lower name)) db.domains ≡ false)
unfolding create
create-eq-ok root ip now id token p org name primary d db db' h = (ground arith, ground arith)

pub get-eq-ok :
    (now org id user : ℕ) (d : Domain) (db : Db)
    → get now org id user db ≡ ok d
    → first? (domain_at org id) db.domains ≡ some d.row
unfolding get
get-eq-ok now org id user d db h = elim (Option-cases (first? (domain_at org id) db.domains)) [
  | inl missing ↦ absurd (ground arith)
  | inr (row, there) ↦ ground (arith, there)
]

pub update-eq-ok :
    (now : ℕ) (p : Principal) (org id : ℕ) (req : UpdateDomain) (d : Domain) (db db' : Db)
    → update now p org id req db ≡ ok (d, db')
    → (old : Domain) × (first? (domain_at org id) db.domains ≡ some old.row)
      × (db'.domains
          ≡ modify
              (λ d. d.id == id)
              (apply_update req)
              (demote (is_set req.is_primary) (other_primary org id) db.domains))
unfolding update
update-eq-ok now p org id req d db db' h = elim (Result-cases (get now org id p.user_id db)) [
  | inl (old, got) ↦ (old, get-eq-ok now org id p.user_id old db got, ground arith)
  | inr (e, failed) ↦ absurd (ground arith)
]

pub remove-eq-ok :
    (now : ℕ) (p : Principal) (org id : ℕ) (db db' : Db)
    → remove now p org id db ≡ ok db'
    → db'.domains ≡ exclude (λ d. d.id == id) db.domains
unfolding remove
remove-eq-ok now p org id db db' h = ground arith

get_dns-domains :
    (root : Text) (ip : Option Text) (order : List DnsRow → List DnsRow) (now org id user : ℕ)
    (db db' : Db) (rows : List DnsRow)
    → get_dns root ip order now org id user db ≡ ok (rows, db')
    → db'.domains ≡ db.domains
unfolding get_dns
get_dns-domains root ip order now org id user db db' rows h = ground arith

settle_verify-domains :
    (root : Text) (ip : Option Text) (order : List DnsRow → List DnsRow) (fresh : ℕ → ℕ)
    (resolve_txt : Text → Resolved) (now : ℕ) (p : Principal) (org id : ℕ) (d : DomainRow) (db : Db)
    → (settle_verify root ip order fresh resolve_txt now p org id d db).domains
      ≡ modify
          (λ x. x.id == d.id)
          (set_status (next_status (is_proved resolve_txt d) d.status))
          db.domains
unfolding emit
settle_verify-domains root ip order fresh resolve_txt now p org id d db = ground arith

pub verify-eq-ok :
    (root : Text) (ip : Option Text) (order : List DnsRow → List DnsRow) (fresh : ℕ → ℕ)
    (resolve_txt : Text → Resolved) (now : ℕ) (p : Principal) (org id : ℕ)
    (answer : DomainStatus × List DnsRow) (db db' : Db)
    → verify root ip order fresh resolve_txt now p org id db ≡ ok (answer, db')
    → (d : DomainRow) × (first? (domain_at org id) db.domains ≡ some d)
      × (answer.0 ≡ next_status (is_proved resolve_txt d) d.status)
      × (db'.domains
          ≡ modify
              (λ x. x.id == d.id)
              (set_status (next_status (is_proved resolve_txt d) d.status))
              db.domains)
unfolding verify
verify-eq-ok root ip order fresh resolve_txt now p org id answer db db' h =
    elim (Result-cases (get now org id p.user_id db)) [
      | inl (d, got) ↦
          let settled = settle_verify root ip order fresh resolve_txt now p org id d.row db in
          elim (Result-cases (get_dns root ip order now org id p.user_id settled)) [
            | inl ((rows, db''), read) ↦ (
              d.row,
              get-eq-ok now org id p.user_id d db got,
              ground (arith, got, read),
              let same : db'.domains ≡ db''.domains = ground (arith, got, read) in
                  same
                  ∙ (get_dns-domains root ip order now org id p.user_id settled db'' rows read
                      ∙ settle_verify-domains root ip order fresh resolve_txt now p org id d.row
                          db),
            )
            | inr (e, failed) ↦ absurd (ground arith)
          ]
      | inr (e, failed) ↦ absurd (ground arith)
    ]

pub upload_bimi-eq-ok :
    (decode base64 : Text → Text) (print : ℕ → Text) (now : ℕ) (p : Principal) (org id : ℕ)
    (body : Text) (kind : Option Text) (storage storage' : Storage) (status : BimiStatus)
    (db db' : Db)
    → upload_bimi decode base64 print now p org id body kind storage db
      ≡ ok (status, (storage', db'))
    → db'.domains ≡ modify (λ d. d.id == id) (set_logo (some (storage_key print id))) db.domains
unfolding upload_bimi
upload_bimi-eq-ok decode base64 print now p org id body kind storage storage' status db db' h =
    ground arith

pub remove_bimi-eq-ok :
    (decode base64 : Text → Text) (print : ℕ → Text) (now : ℕ) (p : Principal) (org id : ℕ)
    (storage storage' : Storage) (status : BimiStatus) (db db' : Db)
    → remove_bimi decode base64 print now p org id storage db ≡ ok (status, (storage', db'))
    → (db'.domains ≡ db.domains)
      ⊎ (db'.domains ≡ modify (λ d. d.id == id) (set_logo none) db.domains)
unfolding remove_bimi
remove_bimi-eq-ok decode base64 print now p org id storage storage' status db db' h =
    elim (Option-cases (first? (domain_at org id) db.domains)) [
      | inl missing ↦ absurd (ground (arith, missing))
      | inr (d, found) ↦ elim (Option-cases (truthy d.bimi_logo_key)) [
        | inl bare ↦ inl (ground (arith, found, bare))
        | inr (key, has_logo) ↦ inr (ground (arith, found, has_logo))
      ]
    ]
