-- ===== src/Tests/Domains.antt =====
-- A domain that is made primary, verified and activated, its records, and its brand logo.
use justmail.Prelude.{
  ℕ, ◌≡◌, true, List, [], ◌∷◌, Option, none, some, Text, codes, text_eq, refl, ok, inl,
}
use justmail.Prelude.Table.{first?}
use justmail.Prelude.Texts.{starts_with, join, is_space}
use justmail.Prelude.Keys.{IsUnique}
use justmail.Prelude.Regex.{Matches, match, test}
use justmail.Store.{admin, DomainRow, DomainStatus, active_domain, DnsRow, Db}
use justmail.Orgs.{require_role, find_role}
use justmail.Mailboxes.{domain_at}
use justmail.Webhooks.{emit}
use justmail.Domains.{
  Domain, create, get, Resolved, records, is_proved, verify, get_dns, update, set_status,
}
use justmail.Domains.Seeds.{seed_mail_host_records}
use justmail.Domains.Change.{by_create}
use justmail.Domains.Primary.{clash, Change-keeps_primary}
use justmail.Domains.Activation.{verify_proves, activation, update_activates}
use justmail.Domains.Bimi.{validate_bimi_svg, script}
use justmail.Domains.Branding.{validate_bimi_svg_lem}
use justmail.Tests.Data.{value, actor, office_domain, office}

abbrev root : Text
root = codes "ex.org"

abbrev ip : Option Text
ip = some (codes "192.0.2.1")

abbrev as_stored : List DnsRow → List DnsRow
as_stored rows = rows

abbrev two_domains : Domain × Db
two_domains =
    value (record { row = office_domain; mailbox_count = 0 }, office)
      (create root ip 5 8 (codes "t") (actor 2) 1 (codes "b.org") (some true) office)

Change-keeps_primary_example : IsUnique clash two_domains.1.domains
unfolding create get require_role find_role text_eq
Change-keeps_primary_example =
    Change-keeps_primary root ip office two_domains.1 (refl, tt)
      (by_create 5 8 (codes "t") (actor 2) 1 (codes "b.org") (some true) two_domains.0 refl)

abbrev fresh : ℕ → ℕ
fresh i = i

abbrev answers : Text → Resolved
answers name = records ((codes "justmail-verify=" ∷ codes "t0ken" ∷ []) ∷ [])

abbrev verified_id : ℕ
verified_id = 7

abbrev verified : (DomainStatus × List DnsRow) × Db
verified =
    value ((active_domain, []), office)
      (verify root ip as_stored fresh answers 5 (actor 3) 1 7 office)

verify_proves_example :
    (verified_id ≡ 7)
    × (d : DomainRow) × (first? (domain_at 1 7) office.domains ≡ some d)
    × (is_proved answers d ≡ true)
unfolding verify get get_dns emit seed_mail_host_records require_role find_role text_eq join
verify_proves_example =
    verify_proves root ip as_stored fresh answers 5 (actor 3) 1 7 verified.0 office verified.1
      verified_id refl refl refl

update_activates_example :
    (a : Domain) × (db' : Db) × (update 5 (actor 2) 1 7 activation office ≡ ok (a, db'))
    × (a.row ≡ set_status active_domain office_domain)
    × (first? (domain_at 1 7) db'.domains ≡ some a.row)
unfolding require_role find_role
update_activates_example = update_activates 5 (actor 2) 1 7 office office_domain admin refl refl

abbrev shown : List DnsRow × Db
shown = value ([], office) (get_dns root ip as_stored 5 1 7 3 office)

abbrev plain_text : Text → Text
plain_text s = s

validate_bimi_svg_lem_example : ¬ Matches script (codes "svg>") []
unfolding validate_bimi_svg test match is_space starts_with
validate_bimi_svg_lem_example =
    validate_bimi_svg_lem plain_text (codes "<svg>") none script (codes "<") (codes "svg>") [] refl
      (inl refl) refl
