-- ===== src/Tests/Mailboxes.antt =====
-- Mailboxes of one domain with a cap of three, in an organization with a ceiling of 1000.
use justmail.Prelude.{
  ◌≢◌, ◌<◌, ◌≤◌, ◌+◌, ◌∷◌, ◌↔◌, ◌⊎◌, true, false, Text, List, ℕ, ◌≡◌, ◌++◌, [], some, none, codes,
  text_eq, ok, refl, arith, inl,
}
use justmail.Mailboxes.Listing.{list_org}
use justmail.Prelude.Texts.{to_lower}
use justmail.Store.{active, Db, admin}
use justmail.Orgs.{require_role, find_role}
use justmail.Prelude.Table.{count, first?}
use justmail.Orgs.Quota.{assert_quota, cap_of, org_at, allocated}
use justmail.Orgs.Quota.Bounds.{WithinQuota}
use justmail.Mailboxes.{
  in_domain, Joined, UpdateMailbox, create, update, get, assert_domain, enforce_limits,
}
use justmail.Mailboxes.Quotas.{create-WithinQuota}
use justmail.Mailboxes.Resizing.{update-WithinQuota}
use justmail.Mailboxes.Limits.{WithinCap, create_succeeds}
use justmail.Mailboxes.Csv.{needs_quotes, has_return, csv, read_field, read_field-csv}
use justmail.Webhooks.{emit}
use justmail.Tests.Data.{office_domain, value, actor, box, office}

abbrev fresh : ℕ → ℕ
fresh i = i

office-WithinQuota : WithinQuota 1 office
office-WithinQuota cap e = ground arith

office-WithinCap : WithinCap 7 office
office-WithinCap cap e ne = ground arith

office-HasRoom :
    (cap : ℕ)
    → office_domain.max_mailboxes ≡ some cap
    → cap ≢ 0
    → count (in_domain 7) office.mailboxes < cap
office-HasRoom cap e ne = ground arith

office-Fits :
    (cap : ℕ) → cap_of (first? (org_at 1) office.orgs) ≡ some cap → allocated 1 office + 400 ≤ cap
office-Fits cap e = ground arith

abbrev nothing : Joined
nothing = record { mailbox = box 0 0 [] 0; domain = office_domain }

abbrev grown : Joined × Db
grown =
    value (nothing, office)
      (create fresh 9 22 [] (actor 2) 1 7 (codes "New") (codes "N") 400 office)

create-WithinQuota_example : WithinQuota 1 grown.1
unfolding create assert_domain enforce_limits assert_quota get emit require_role find_role text_eq
create-WithinQuota_example =
    create-WithinQuota fresh 9 22 [] (actor 2) 1 7 (codes "New") (codes "N") 400 office grown.1
      grown.0 1 (refl, tt) office-WithinQuota refl

create_succeeds_example :
    (b : Joined) × (db' : Db) × (create fresh 9 22 []
        (actor 2)
        1
        7
        (codes "New")
        (codes "N")
        400
        office
      ≡ ok (b, db'))
    × (db'.mailboxes ≡ office.mailboxes ++ b.mailbox ∷ [])
    × (b.domain ≡ office_domain)
    × (b.mailbox.id ≡ 22)
    × (b.mailbox.domain_id ≡ 7)
    × (b.mailbox.local_part ≡ to_lower (codes "New"))
    × (b.mailbox.name ≡ codes "N")
    × (b.mailbox.password_hash ≡ [])
    × (b.mailbox.quota_mb ≡ 400)
    × (b.mailbox.quota_used_bytes ≡ 0)
    × (b.mailbox.status ≡ active)
unfolding require_role find_role text_eq
create_succeeds_example =
    create_succeeds fresh 9 22 [] (actor 2) 1 7 (codes "New") (codes "N") 400 office admin
      office_domain refl refl refl office-HasRoom office-Fits refl refl

abbrev bigger : UpdateMailbox
bigger = record {
  name = none;
  quota_mb = some 600;
  status = none;
  imap_enabled = none;
  pop3_enabled = none;
  smtp_enabled = none;
  sieve_enabled = none;
  autoresponder = none;
  forward_to = none;
  forward_keep_copy = none;
}

abbrev resized : Joined × Db
resized = value (nothing, office) (update 9 (actor 2) 1 20 bigger office)

update-WithinQuota_example : WithinQuota 1 resized.1
unfolding update get assert_quota require_role find_role
update-WithinQuota_example =
    update-WithinQuota 9 (actor 2) 1 20 bigger office resized.1 resized.0 1 (refl, tt)
      (refl, (refl, tt)) office-WithinQuota refl

read_field-csv_example :
    (read_field (csv (codes "a,\"b\"\n") ++ codes ",next") ≡ (codes "a,\"b\"\n", codes ",next"))
    ↔ ((needs_quotes (codes "a,\"b\"\n") ≡ true) ⊎ (has_return (codes "a,\"b\"\n") ≡ false))
read_field-csv_example = read_field-csv (codes "a,\"b\"\n") (codes ",next") (inl refl)

abbrev as_stored : List Joined → List Joined
as_stored bs = bs

abbrev digits : ℕ → Text
digits n = []

abbrev all_boxes : List Joined
all_boxes = value [] (list_org as_stored digits 9 1 3 office)

abbrev second : Joined
second = record { mailbox = box 21 7 (codes "b") 300; domain = office_domain }
