-- ===== src/Mailboxes/Resizing.antt =====
-- `update` of apps/api/src/mailboxes/mailboxes.service.ts and the storage ceiling of organizations.
use justmail.Prelude.{
  ℕ, ◌+◌, ◌≤◌, ◌≡◌, Bool, true, false, ◌&&◌, List, [], ◌∷◌, none, some, arith, ◌==◌, refl, subst,
  inl, inr, Bool-cases, Option-cases, Result-cases, ok,
}
use justmail.Prelude.Table.{select, exclude, modify, first?, has}
use justmail.Store.{DomainRow, MailboxRow, Db, Principal}
use justmail.Orgs.Quota.{of_org, sum_of, quota_of, org_at, not_excluded, cap_of, assert_quota}
use justmail.Orgs.Quota.Bounds.{WithinQuota}
use justmail.Mailboxes.{domain_at, get, UpdateMailbox, apply_update, update, Joined}
use justmail.Mailboxes.Quotas.{AreKeyed, one_org, assert_quota-eq-ok}

abbrev with_id : ℕ → MailboxRow → Bool
with_id id m = m.id == id

-- The primary key of `mailboxes`.
abbrev pub AreKeyedBoxes : List MailboxRow → Type 0
AreKeyedBoxes [] = Unit
AreKeyedBoxes (m ∷ ms) = (has (λ n. n.id == m.id) ms ≡ false) × AreKeyedBoxes ms

module _ (o : ℕ) (ds : List DomainRow) (id : ℕ) (req : UpdateMailbox) where
  abbrev mb_of : List MailboxRow → ℕ
  mb_of ms = sum_of quota_of (select (of_org o ds) ms)

  abbrev others_of : List MailboxRow → ℕ
  others_of ms = sum_of quota_of (select (λ m. of_org o ds m && not_excluded (some id) m) ms)

  abbrev changed : List MailboxRow → List MailboxRow
  changed ms = modify (with_id id) (apply_update req) ms

  mb_of-changed_absent :
      (ms : List MailboxRow)
      → has (with_id id) ms ≡ false
      → (mb_of (changed ms) ≡ mb_of ms) × (others_of ms ≡ mb_of ms)
  mb_of-changed_absent [] h = (refl, refl)
  mb_of-changed_absent (m ∷ ms) h = ground (arith, mb_of-changed_absent ms)

  absent_id :
      (a : ℕ) (ms : List MailboxRow)
      → a ≡ id
      → has (λ n. n.id == a) ms ≡ false
      → has (with_id id) ms ≡ false
  absent_id a ms e h = subst (λ b. has (with_id b) ms ≡ false) e h

  mb_of-changed :
      (q : ℕ) (ms : List MailboxRow)
      → AreKeyedBoxes ms
      → req.quota_mb ≡ some q
      → mb_of (changed ms) ≤ others_of ms + q
  mb_of-changed q [] h e = omega arith
  mb_of-changed q (m ∷ ms) (k, h) e =
      ground (arith, mb_of-changed q ms h e, mb_of-changed_absent ms, absent_id m.id ms)

  mb_of-kept : (ms : List MailboxRow) → req.quota_mb ≡ none → mb_of (changed ms) ≡ mb_of ms
  mb_of-kept [] e = refl
  mb_of-kept (m ∷ ms) e = ground (arith, mb_of-kept ms e)

  mb_of-foreign :
      (ms : List MailboxRow) (m : MailboxRow)
      → AreKeyedBoxes ms
      → first? (with_id id) ms ≡ some m
      → has (domain_at o m.domain_id) ds ≡ false
      → mb_of (changed ms) ≡ mb_of ms
  mb_of-foreign [] m h e f = refl
  mb_of-foreign (n ∷ ms) m (k, h) e f =
      ground (arith, mb_of-foreign ms m h, mb_of-changed_absent ms, absent_id n.id ms)

  mb_of-exclude : (ms : List MailboxRow) → mb_of (exclude (with_id id) ms) ≤ mb_of ms
  mb_of-exclude [] = omega arith
  mb_of-exclude (m ∷ ms) = ground (arith, mb_of-exclude ms)

first?-has :
    (org domain : ℕ) (ds : List DomainRow) (d : DomainRow)
    → first? (domain_at org domain) ds ≡ some d
    → has (domain_at org domain) ds ≡ true
first?-has org domain [] d h = cc
first?-has org domain (x ∷ ds) d h = ground (arith, first?-has org domain ds d)

-- What `get` finds lies in a domain of the organization.
pub get-eq-ok :
    (now org id user : ℕ) (db : Db) (box : Joined)
    → get now org id user db ≡ ok box
    → (first? (with_id id) db.mailboxes ≡ some box.mailbox)
      × (has (domain_at org box.mailbox.domain_id) db.domains ≡ true)
unfolding get
get-eq-ok now org id user db box h = elim (Option-cases (first? (with_id id) db.mailboxes)) [
  | inl missing ↦ absurd (ground arith)
  | inr (m, found) ↦ elim (Option-cases (first? (domain_at org m.domain_id) db.domains)) [
    | inl foreign ↦ absurd (ground arith)
    | inr (d, there) ↦ (ground arith, ground (arith, first?-has org m.domain_id db.domains d))
  ]
]

update-eq-ok :
    (now : ℕ) (p : Principal) (org id : ℕ) (req : UpdateMailbox) (db db' : Db) (box : Joined)
    → update now p org id req db ≡ ok (box, db')
    → (old : Joined) × (get now org id p.user_id db ≡ ok old)
      × ((q : ℕ) → req.quota_mb ≡ some q → assert_quota org q (some id) db ≡ ok tt)
      × (db'.mailboxes ≡ modify (with_id id) (apply_update req) db.mailboxes)
      × (db'.orgs ≡ db.orgs)
      × (db'.domains ≡ db.domains)
unfolding update
update-eq-ok now p org id req db db' box h = elim (Result-cases (get now org id p.user_id db)) [
  | inr (e, failed) ↦ absurd (ground arith)
  | inl (old, found) ↦ (old, found, λ q e. ground arith, ground arith, ground arith, ground arith)
]

-- Where the ids of domains and those of mailboxes are distinct, an organization within its ceiling
-- is within it still after a mailbox was changed, its quota included, in it or in another
-- organization.
pub update-WithinQuota :
    (now : ℕ) (p : Principal) (org id : ℕ) (req : UpdateMailbox) (db db' : Db) (box : Joined)
    (other : ℕ)
    → AreKeyed db.domains
    → AreKeyedBoxes db.mailboxes
    → WithinQuota other db
    → update now p org id req db ≡ ok (box, db')
    → WithinQuota other db'
update-WithinQuota now p org id req db db' box other keyed boxes within h cap e =
    let (old, found, fits, ms, os, ds) = update-eq-ok now p org id req db db' box h in
    let (row, here) = get-eq-ok now org id p.user_id db old found in
    let ceiling : cap_of (first? (org_at other) db.orgs) ≡ some cap = rw os at e in
    let before = within cap ceiling in
    rw (ms, ds)
      (elim (Option-cases req.quota_mb) [
        | inl kept ↦ ground (arith, mb_of-kept other db.domains id req db.mailboxes kept)
        | inr (q, asked) ↦ elim (Bool-cases (other == org)) [
          | inl same ↦ ground (
            arith,
            assert_quota-eq-ok org q (some id) db cap (fits q asked),
            mb_of-changed other db.domains id req q db.mailboxes boxes asked,
          )
          | inr differ ↦ ground (
            arith,
            one_org org other old.mailbox.domain_id db.domains keyed here,
            mb_of-foreign other db.domains id req db.mailboxes old.mailbox boxes row,
          )
        ]
      ])
