-- ===== src/Mailboxes/Listing.antt =====
-- `list`, `listOrg` and `exportCsv` of apps/api/src/mailboxes/mailboxes.service.ts. The order of the
-- rows, that of the database's collation, is the parameter `order`; `print` is the decimal of a number.
use justmail.Prelude.{
  ℕ, ◌≡◌, ◌↔◌, Bool, ◌&&◌, List, [], ◌∷◌, ◌++◌, none, some, Text, codes, IsIn, arith, Result, ok,
  ◌>>=◌, ◌>>◌, map, ◌==◌, inl, inr, Option-cases, refl, ap,
}
use justmail.Prelude.Table.{first?}
use justmail.Prelude.Texts.{join}
use justmail.Store.{admin, viewer, Status, active, suspended, disabled, DomainRow, MailboxRow, Db}
use justmail.Orgs.{require_role}
use justmail.Mailboxes.{domain_at, assert_domain, address, Joined}
use justmail.Mailboxes.Csv.{csv}

-- The join of the mailboxes with the domains that meet a condition.
unfoldable pub join_domains :
    (ℕ → DomainRow → Bool) → List DomainRow → List MailboxRow → List Joined
join_domains on ds [] = []
join_domains on ds (m ∷ ms) =
    let rest = join_domains on ds ms in
    elim (first? (on m.domain_id) ds) [
      | none ↦ rest
      | some d ↦ record { mailbox = m; domain = d } ∷ rest
    ]

-- `d.id = m.domain_id` and `m.domain_id = $1`
abbrev pub on_domain : ℕ → ℕ → DomainRow → Bool
on_domain domain id d = d.id == id && id == domain

abbrev pub word : Status → Text
word active = codes "active"
word suspended = codes "suspended"
word disabled = codes "disabled"

module _ (order : List Joined → List Joined) (print : ℕ → Text) where
  -- `list`
  abbrev pub list : ℕ → ℕ → ℕ → ℕ → Db → Result (List Joined)
  list now org domain user db = do
    assert_domain now org domain user db
    ok (order (join_domains (on_domain domain) db.domains db.mailboxes))

  -- `listOrg`
  unfoldable pub list_org : ℕ → ℕ → ℕ → Db → Result (List Joined)
  list_org now org user db = do
    require_role now org user viewer db
    ok (order (join_domains (domain_at org) db.domains db.mailboxes))

  abbrev pub csv_row : Joined → Text
  csv_row b = join (codes ",") (
      csv (address b.mailbox b.domain)
      ∷ csv b.mailbox.name
      ∷ print b.mailbox.quota_mb
      ∷ word b.mailbox.status
      ∷ csv (join (codes ";") b.mailbox.forward_to)
      ∷ [])

  -- `exportCsv`
  abbrev pub export_csv : ℕ → ℕ → ℕ → Db → Result Text
  export_csv now org user db = do
    require_role now org user admin db
    boxes ← list_org now org user db
    ok (
        join (codes "\n") (codes "address,name,quota_mb,status,forward_to" ∷ map csv_row boxes)
        ++ codes "\n")

-- A mailbox beside its domain, one of the organization.
abbrev pub IsOf : ℕ → Db → Joined → Type 0
IsOf org db b =
    IsIn b.mailbox db.mailboxes
    × (first? (domain_at org b.mailbox.domain_id) db.domains ≡ some b.domain)

join_absent :
    (org : ℕ) (ds : List DomainRow) (m : MailboxRow) (ms : List MailboxRow)
    → first? (domain_at org m.domain_id) ds ≡ none
    → join_domains (domain_at org) ds (m ∷ ms) ≡ join_domains (domain_at org) ds ms
unfolding join_domains
join_absent org ds m ms h = ground arith

join_present :
    (org : ℕ) (ds : List DomainRow) (m : MailboxRow) (ms : List MailboxRow) (d : DomainRow)
    → first? (domain_at org m.domain_id) ds ≡ some d
    → join_domains (domain_at org) ds (m ∷ ms)
      ≡ record { mailbox = m; domain = d } ∷ join_domains (domain_at org) ds ms
unfolding join_domains
join_present org ds m ms d h = ground arith

join_sound :
    (org : ℕ) (ds : List DomainRow) (ms : List MailboxRow) (b : Joined)
    → IsIn b (join_domains (domain_at org) ds ms)
    → IsIn b.mailbox ms × (first? (domain_at org b.mailbox.domain_id) ds ≡ some b.domain)
join_sound org ds [] b h = absurd (unfold join_domains in h)
join_sound org ds (m ∷ ms) b h = elim (Option-cases (first? (domain_at org m.domain_id) ds)) [
  | inl missing ↦
      let (i, d) = join_sound org ds ms b (rw (join_absent org ds m ms missing) at h) in (inr i, d)
  | inr (d, found) ↦ elim (rw (join_present org ds m ms d found) at h) [
    | inl same ↦ (inl (ap (λ (x : Joined). x.mailbox) same), rw same found)
    | inr later ↦ let (i, e) = join_sound org ds ms b later in (inr i, e)
  ]
]

join_complete :
    (org : ℕ) (ds : List DomainRow) (ms : List MailboxRow) (b : Joined)
    → IsIn b.mailbox ms
    → first? (domain_at org b.mailbox.domain_id) ds ≡ some b.domain
    → IsIn b (join_domains (domain_at org) ds ms)
join_complete org ds [] b h e = absurd h
join_complete org ds (m ∷ ms) b (inl same) e =
    rw (← same) (rw (join_present org ds b.mailbox ms b.domain e) (inl refl))
join_complete org ds (m ∷ ms) b (inr later) e =
    elim (Option-cases (first? (domain_at org m.domain_id) ds)) [
      | inl missing ↦ rw (join_absent org ds m ms missing) (join_complete org ds ms b later e)
      | inr (d, found) ↦
          rw (join_present org ds m ms d found) (inr (join_complete org ds ms b later e))
    ]

listed :
    (order : List Joined → List Joined) (print : ℕ → Text) (now org user : ℕ) (db : Db)
    (bs : List Joined)
    → list_org order print now org user db ≡ ok bs
    → bs ≡ order (join_domains (domain_at org) db.domains db.mailboxes)
unfolding list_org
listed order print now org user db bs h = ground arith

-- The mailboxes that are listed for an organization are exactly those whose domain is one of the
-- organization, each beside that domain, where the database's ordering neither drops nor adds a row.
pub list_org_iff :
    (order : List Joined → List Joined) (print : ℕ → Text) (now org user : ℕ) (db : Db)
    (bs : List Joined) (b : Joined)
    → ((xs : List Joined) (x : Joined) → IsIn x (order xs) ↔ IsIn x xs)
    → list_org order print now org user db ≡ ok bs
    → IsIn b bs ↔ IsOf org db b
list_org_iff order print now org user db bs b kept h =
    let rows = join_domains (domain_at org) db.domains db.mailboxes in
    let (out, back) = kept rows b in
    rw (listed order print now org user db bs h) (
      λ i. join_sound org db.domains db.mailboxes b (out i),
      λ (i, e). back (join_complete org db.domains db.mailboxes b i e),
    )
