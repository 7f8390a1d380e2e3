-- ===== src/Retention/Listing.antt =====
-- `list` of apps/api/src/retention/legal-hold.service.ts.
use justmail.Prelude.{
  ℕ, not, ◌&&◌, List, ◌++◌, Option, none, some, Text, ◌==◌, Result, ok, ◌>>◌, map,
}
use justmail.Prelude.Table.{select, first?, newest}
use justmail.Store.{admin, HoldRow, DomainRow, MailboxRow, Db}
use justmail.Orgs.{require_role, is_none}
use justmail.Mailboxes.{address}
use justmail.Retention.{is_active}

-- `HoldRow` with the address of its mailbox.
pub record LegalHold : Type 0 where
  pub hold : HoldRow
  pub mailbox_address : Option Text

abbrev domain_address : MailboxRow → Option DomainRow → Option Text
domain_address m none = none
domain_address m (some d) = some (address m d)

abbrev box_address : List DomainRow → Option MailboxRow → Option Text
box_address ds none = none
box_address ds (some m) = domain_address m (first? (λ d. d.id == m.domain_id) ds)

-- `CASE WHEN h.mailbox_id IS NULL THEN NULL ELSE m.local_part || '@' || d.name END` over the two LEFT
-- JOINs.
abbrev pub address_of : Db → Option ℕ → Option Text
address_of db none = none
address_of db (some id) = box_address db.domains (first? (λ m. m.id == id) db.mailboxes)

abbrev pub with_address : Db → HoldRow → LegalHold
with_address db h = record { hold = h; mailbox_address = address_of db h.mailbox_id }

-- `list`: the active holds, then the released ones, each the newest first.
abbrev pub list : ℕ → ℕ → ℕ → Db → Result (List LegalHold)
list now org user db = do
  require_role now org user admin db
  ok (
      map (with_address db) (
        newest (select (is_active org) db.holds)
        ++ newest
            (select (λ (h : HoldRow). h.org_id == org && not (is_none h.released_at)) db.holds)))
