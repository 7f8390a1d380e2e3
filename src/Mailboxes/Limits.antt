-- ===== src/Mailboxes/Limits.antt =====
-- The domain's cap on mailboxes, and the row that `create` of
-- apps/api/src/mailboxes/mailboxes.service.ts answers.
use justmail.Prelude.{
  inl, inr, ◌∙◌, ℕ, ◌≤◌, ◌<◌, ◌+◌, Option-cases, ◌≡◌, ◌≢◌, true, false, List, [], ◌∷◌, ◌++◌, none,
  some, arith, Text, ◌==◌, refl, Bool-cases, ok,
}
use justmail.Prelude.Texts.{to_lower}
use justmail.Prelude.Table.{first?, has, count, count-append}
use justmail.Store.{Role, DomainRow, MailboxRow, active, Db, Principal, admin, mailbox_created}
use justmail.Orgs.{require_role, find_role}
use justmail.Orgs.Members.{user_event}
use justmail.Orgs.Quota.{assert_quota, cap_of, org_at, allocated}
use justmail.Webhooks.{emit}
use justmail.Mailboxes.{
  domain_at, assert_domain, in_domain, domain_cap, enforce_limits, box_at, get, new_mailbox, create,
  Joined, address,
}
use justmail.Mailboxes.Quotas.{create-eq-ok}

-- The domain holds no more mailboxes than its cap, where it has a cap above 0.
abbrev pub WithinCap : ℕ → Db → Type 0
WithinCap domain db =
    (cap : ℕ)
    → domain_cap domain db ≡ some cap
    → cap ≢ 0
    → count (in_domain domain) db.mailboxes ≤ cap

-- A domain that holds no more mailboxes than its cap holds no more after a mailbox was created, in
-- it or in another domain; a cap of 0 is read as no cap.
pub create-WithinCap :
    (fresh : ℕ → ℕ) (now id : ℕ) (hash : Text) (p : Principal) (org domain : ℕ)
    (local_part name : Text) (quota_mb : ℕ) (db db' : Db) (box : Joined) (other : ℕ)
    → WithinCap other db
    → create fresh now id hash p org domain local_part name quota_mb db ≡ ok (box, db')
    → WithinCap other db'
unfolding enforce_limits
create-WithinCap fresh now id hash p org domain local_part name quota_mb db db' box other within h
      cap e ne =
    let (_, limit, _, ms, _, ds) =
      create-eq-ok fresh now id hash p org domain local_part name quota_mb db db' box h in
    let row = new_mailbox id domain (to_lower local_part) name hash quota_mb in
    let same : domain_cap other db ≡ some cap = rw ds at e in
    rw (ms, count-append (in_domain other) db.mailboxes (row ∷ []))
      (elim (Bool-cases (domain == other)) [
        | inl this ↦ ground arith
        | inr else_where ↦ ground (arith, within cap same ne)
      ])

find_new :
    (id : ℕ) (ms : List MailboxRow) (x : MailboxRow)
    → has (λ m. m.id == id) ms ≡ false
    → x.id ≡ id
    → first? (λ m. m.id == id) (ms ++ x ∷ []) ≡ some x
find_new id [] x h e = ground arith
find_new id (m ∷ ms) x h e = ground (arith, find_new id ms x)

row_found :
    (now org id user domain : ℕ) (db : Db) (x : MailboxRow) (d : DomainRow) (r : Role)
    → require_role now org user admin db ≡ ok r
    → first? (λ m. m.id == id) db.mailboxes ≡ some x
    → first? (domain_at org x.domain_id) db.domains ≡ some d
    → get now org id user db ≡ ok (record { mailbox = x; domain = d })
unfolding get require_role
row_found now org id user domain db x d r allowed found there = ground arith

-- A role is looked up in the members and the keys alone.
pub require_role-mailboxes :
    (now org user : ℕ) (min : Role) (db db' : Db)
    → db'.members ≡ db.members
    → db'.keys ≡ db.keys
    → require_role now org user min db' ≡ require_role now org user min db
unfolding require_role find_role
require_role-mailboxes now org user min db db' e f = rw (e, f)

-- The row of an id that is one of the organization is the one that the joins find.
first?-domain_at :
    (org domain : ℕ) (ds : List DomainRow) (d : DomainRow)
    → first? (λ x. x.id == domain) ds ≡ some d
    → d.org_id ≡ org
    → (first? (domain_at org domain) ds ≡ some d) × (has (domain_at org domain) ds ≡ true)
first?-domain_at org domain [] d h e = absurd (ground arith)
first?-domain_at org domain (x ∷ ds) d h e = ground (arith, first?-domain_at org domain ds d)

-- A domain without a cap, with the cap 0, or with fewer mailboxes than its cap takes another one.
enforce_limits-room :
    (domain : ℕ) (d : DomainRow) (db : Db)
    → first? (λ x. x.id == domain) db.domains ≡ some d
    → ((cap : ℕ)
        → d.max_mailboxes ≡ some cap
        → cap ≢ 0
        → count (in_domain domain) db.mailboxes < cap)
    → enforce_limits domain db ≡ ok tt
unfolding enforce_limits
enforce_limits-room domain d db found room = elim (Option-cases d.max_mailboxes) [
  | inl open_ended ↦ rw found (rw open_ended refl)
  | inr (cap, capped) ↦ elim (Bool-cases (cap == 0)) [
    | inl zero ↦ rw found (rw capped (rw zero refl))
    | inr above ↦
        let below = room cap capped (ground arith) in rw found (rw capped (ground (arith, below)))
  ]
]

assert_quota-fits :
    (org quota_mb : ℕ) (db : Db)
    → ((cap : ℕ)
        → cap_of (first? (org_at org) db.orgs) ≡ some cap
        → allocated org db + quota_mb ≤ cap)
    → assert_quota org quota_mb none db ≡ ok tt
unfolding assert_quota
assert_quota-fits org quota_mb db fits =
    elim (Option-cases (cap_of (first? (org_at org) db.orgs))) [
      | inl open_ended ↦ rw open_ended refl
      | inr (cap, capped) ↦ let under = fits cap capped in rw capped (ground (arith, under))
    ]

-- When the actor is an admin, the domain is one of the organization and has no cap, the cap 0 or
-- fewer mailboxes than its cap, the organization has no ceiling or the new quota fits under it
-- with what its mailboxes are allocated, no mailbox has the local part there, and the new id is not
-- taken, `create` succeeds: it adds one row, the mailbox that it answers, which is an active and empty
-- mailbox of the domain with the local part in lower case and the name, the password's hash and the
-- quota that were asked for.
pub create_succeeds :
    (fresh : ℕ → ℕ) (now id : ℕ) (hash : Text) (p : Principal) (org domain : ℕ)
    (local_part name : Text) (quota_mb : ℕ) (db : Db) (r : Role) (d : DomainRow)
    → require_role now org p.user_id admin db ≡ ok r
    → first? (λ x. x.id == domain) db.domains ≡ some d
    → d.org_id ≡ org
    → ((cap : ℕ)
        → d.max_mailboxes ≡ some cap
        → cap ≢ 0
        → count (in_domain domain) db.mailboxes < cap)
    → ((cap : ℕ)
        → cap_of (first? (org_at org) db.orgs) ≡ some cap
        → allocated org db + quota_mb ≤ cap)
    → has (box_at domain local_part) db.mailboxes ≡ false
    → has (λ m. m.id == id) db.mailboxes ≡ false
    → (box : Joined) × (db' : Db) × (create fresh now id hash p org domain local_part name quota_mb
          db
        ≡ ok (box, db'))
      × (db'.mailboxes ≡ db.mailboxes ++ box.mailbox ∷ [])
      × (box.domain ≡ d)
      × (box.mailbox.id ≡ id)
      × (box.mailbox.domain_id ≡ domain)
      × (box.mailbox.local_part ≡ to_lower local_part)
      × (box.mailbox.name ≡ name)
      × (box.mailbox.password_hash ≡ hash)
      × (box.mailbox.quota_mb ≡ quota_mb)
      × (box.mailbox.quota_used_bytes ≡ 0)
      × (box.mailbox.status ≡ active)
unfolding create assert_domain require_role emit
create_succeeds fresh now id hash p org domain local_part name quota_mb db r d allowed row_there
      ours space under free unused =
    let (found, there) = first?-domain_at org domain db.domains d row_there ours in
    let room = enforce_limits-room domain d db row_there space in
    let fits = assert_quota-fits org quota_mb db under in
    let row = new_mailbox id domain (to_lower local_part) name hash quota_mb in
    let written : Db =
      user_event org p.user_id "mailbox.create" "mailbox" id
        (record db { mailboxes = db.mailboxes ++ row ∷ [] }) in
    let back =
      row_found now org id p.user_id domain written row d r
        (require_role-mailboxes now org p.user_id admin db written refl refl ∙ allowed)
        (find_new id db.mailboxes row unused refl) found in
    (
      record { mailbox = row; domain = d },
      emit fresh now org "mailbox.created" (mailbox_created id (address row d) quota_mb) written,
      ground (arith, back),
      refl,
      refl,
      refl,
      refl,
      refl,
      refl,
      refl,
      refl,
      refl,
      refl,
    )
