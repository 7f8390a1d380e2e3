-- ===== src/Mailboxes.antt =====
-- apps/api/src/mailboxes/mailboxes.service.ts. The hash of a password is an argument. The closing
-- `get` of `create` and `update`, which reads the written row back, is the function `get` here.
pub mod Csv
pub mod Limits
pub mod Listing
pub mod Quotas
pub mod Resizing
use justmail.Prelude.{
  ℕ, ◌+◌, Bool, true, false, not, ◌&&◌, List, [], ◌∷◌, ◌++◌, Option, none, some, Text, text_eq, leb,
  ◌==◌, if◌then◌else◌, Result, ok, err, not_found, conflict, ◌>>=◌, ◌>>◌, throw_if,
}
use justmail.Prelude.Table.{exclude, modify, first?, has, count}
use justmail.Prelude.Texts.{to_lower}
use justmail.Store.{
  admin, viewer, DomainRow, Status, active, mailbox_created, mailbox_deleted, MailboxRow, Db,
  Principal, HoldRow,
}
use justmail.Orgs.{require_role}
use justmail.Orgs.Members.{user_event}
use justmail.Orgs.Quota.{assert_quota, of_org}
use justmail.Webhooks.{emit}

abbrev pub domain_at : ℕ → ℕ → DomainRow → Bool
domain_at org domain d = d.id == domain && d.org_id == org

-- `assertDomain`
unfoldable pub assert_domain : ℕ → ℕ → ℕ → ℕ → Db → Result (Unit {0})
assert_domain now org domain user db = do
  require_role now org user viewer db
  throw_if (not (has (domain_at org domain) db.domains)) (not_found "Domain not found")

abbrev cap_of : Option DomainRow → Option ℕ
cap_of none = none
cap_of (some d) = d.max_mailboxes

-- `cap && n >= cap`: no cap, and a cap of 0, limit nothing.
abbrev pub at_cap : Option ℕ → ℕ → Bool
at_cap none n = false
at_cap (some cap) n = not (cap == 0) && leb cap n

abbrev pub in_domain : ℕ → MailboxRow → Bool
in_domain domain m = m.domain_id == domain

abbrev pub domain_cap : ℕ → Db → Option ℕ
domain_cap domain db = cap_of (first? (λ d. d.id == domain) db.domains)

-- `enforceLimits`
unfoldable pub enforce_limits : ℕ → Db → Result (Unit {0})
enforce_limits domain db =
    throw_if (at_cap (domain_cap domain db) (count (in_domain domain) db.mailboxes))
      (conflict "Mailbox limit reached")

-- The row of the join, the mailbox with its domain.
pub record Joined : Type 0 where
  pub mailbox : MailboxRow
  pub domain : DomainRow

abbrev joined : MailboxRow → Option DomainRow → Result Joined
joined m none = err (not_found "Mailbox not found")
joined m (some d) = ok (record { mailbox = m; domain = d })

-- `WHERE m.id = $1 AND d.org_id = $2`; `id` is a key.
abbrev pub find_box : ℕ → Option MailboxRow → Db → Result Joined
find_box org none db = err (not_found "Mailbox not found")
find_box org (some m) db = joined m (first? (domain_at org m.domain_id) db.domains)

-- `get`
unfoldable pub get : ℕ → ℕ → ℕ → ℕ → Db → Result Joined
get now org id user db = do
  require_role now org user viewer db
  find_box org (first? (λ m. m.id == id) db.mailboxes) db

-- `address` of `toMailbox`
abbrev pub address : MailboxRow → DomainRow → Text
address m d = m.local_part ++ (b'@' ∷ d.name)

-- The unique key (domain_id, local_part), a `citext`.
abbrev pub box_at : ℕ → Text → MailboxRow → Bool
box_at domain local_part m =
    m.domain_id == domain && text_eq (to_lower m.local_part) (to_lower local_part)

-- The inserted row with the columns' defaults.
abbrev pub new_mailbox : ℕ → ℕ → Text → Text → Text → ℕ → MailboxRow
new_mailbox id domain local_part name hash quota_mb = record {
  id = id;
  domain_id = domain;
  local_part = local_part;
  name = name;
  password_hash = hash;
  quota_mb = quota_mb;
  quota_used_bytes = 0;
  status = active;
  imap_enabled = true;
  pop3_enabled = true;
  smtp_enabled = true;
  sieve_enabled = true;
  autoresponder = none;
  forward_to = [];
  forward_keep_copy = true;
}

-- `create`; the event is emitted with the row that `get` reads back.
unfoldable pub create :
    (ℕ → ℕ) → ℕ → ℕ → Text → Principal → ℕ → ℕ → Text → Text → ℕ → Db → Result (Joined × Db)
create fresh now id hash p org domain local_part name quota_mb db = do
  require_role now org p.user_id admin db
  assert_domain now org domain p.user_id db
  enforce_limits domain db
  assert_quota org quota_mb none db
  throw_if (has (box_at domain local_part) db.mailboxes) (conflict "Mailbox already exists")
  let row = new_mailbox id domain (to_lower local_part) name hash quota_mb
  let db' =
      user_event org p.user_id "mailbox.create" "mailbox" id
        (record db { mailboxes = db.mailboxes ++ row ∷ [] })
  created ← get now org id p.user_id db'
  ok (
    created,
    emit fresh now org "mailbox.created"
        (mailbox_created created.mailbox.id (address created.mailbox created.domain)
          created.mailbox.quota_mb)
        db',
  )

-- `UpdateMailboxRequest`; a field is `none` where the request leaves it out.
pub record UpdateMailbox : Type 0 where
  pub name : Option Text
  pub quota_mb : Option ℕ
  pub status : Option Status
  pub imap_enabled : Option Bool
  pub pop3_enabled : Option Bool
  pub smtp_enabled : Option Bool
  pub sieve_enabled : Option Bool
  pub autoresponder : Option (Option Text)
  pub forward_to : Option (List Text)
  pub forward_keep_copy : Option Bool

abbrev pub given {ℓ} : {A : Type ℓ} → Option A → A → A
given none old = old
given (some new) old = new

-- The columns that the request names.
abbrev pub apply_update : UpdateMailbox → MailboxRow → MailboxRow
apply_update req m = record m {
  name = given req.name m.name;
  quota_mb = given req.quota_mb m.quota_mb;
  status = given req.status m.status;
  imap_enabled = given req.imap_enabled m.imap_enabled;
  pop3_enabled = given req.pop3_enabled m.pop3_enabled;
  smtp_enabled = given req.smtp_enabled m.smtp_enabled;
  sieve_enabled = given req.sieve_enabled m.sieve_enabled;
  autoresponder = given req.autoresponder m.autoresponder;
  forward_to = given req.forward_to m.forward_to;
  forward_keep_copy = given req.forward_keep_copy m.forward_keep_copy;
}

abbrev check_quota : ℕ → ℕ → Option ℕ → Db → Result (Unit {0})
check_quota org id none db = ok tt
check_quota org id (some quota_mb) db = assert_quota org quota_mb (some id) db

-- `update`
unfoldable pub update : ℕ → Principal → ℕ → ℕ → UpdateMailbox → Db → Result (Joined × Db)
update now p org id req db = do
  require_role now org p.user_id admin db
  get now org id p.user_id db
  check_quota org id req.quota_mb db
  let db' =
      user_event org p.user_id "mailbox.update" "mailbox" id
        (record db { mailboxes = modify (λ m. m.id == id) (apply_update req) db.mailboxes })
  updated ← get now org id p.user_id db'
  ok (updated, db')

abbrev set_hash : Text → MailboxRow → MailboxRow
set_hash hash m = record m { password_hash = hash }

-- `setPassword`
unfoldable pub set_password : ℕ → Principal → ℕ → ℕ → Text → Db → Result Db
set_password now p org id hash db = do
  require_role now org p.user_id admin db
  get now org id p.user_id db
  ok (
      user_event org p.user_id "mailbox.password_set" "mailbox" id
        (record db { mailboxes = modify (λ m. m.id == id) (set_hash hash) db.mailboxes }))

-- The holds of a mailbox go with it: `ON DELETE CASCADE`.
abbrev pub holds_box : ℕ → HoldRow → Bool
holds_box id h = elim h.mailbox_id [ none ↦ false | some m ↦ m == id ]

-- `remove`
unfoldable pub remove : (ℕ → ℕ) → ℕ → Principal → ℕ → ℕ → Db → Result Db
remove fresh now p org id db = do
  require_role now org p.user_id admin db
  box ← get now org id p.user_id db
  ok (
      emit fresh now org "mailbox.deleted" (mailbox_deleted id (address box.mailbox box.domain)) (
        user_event org p.user_id "mailbox.delete" "mailbox" id (record db {
          mailboxes = exclude (λ m. m.id == id) db.mailboxes;
          holds = exclude (holds_box id) db.holds;
          filters = exclude (λ f. f.mailbox_id == id) db.filters;
        })))
