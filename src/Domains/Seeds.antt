-- ===== src/Domains/Seeds.antt =====
-- `seedDnsRecords` and `seedMailHostRecords` of apps/api/src/domains/domains.service.ts.
use justmail.Prelude.{
  ℕ, zero, suc, ◌-◌, Bool, true, false, ◌&&◌, List, [], ◌∷◌, ◌++◌, Option, none, some, Text, codes,
  text_eq, length, drop, ◌==◌, if◌then◌else◌,
}
use justmail.Prelude.Table.{has}
use justmail.Prelude.Texts.{starts_with, split, join}
use justmail.Store.{
  Purpose, for_verification, for_mx, for_spf, for_dkim, for_dmarc, for_mta_sts, for_tls_rpt,
  for_autoconfig, for_autodiscover, for_bimi, for_caa, for_custom, unknown, DnsRow,
}

-- `.replace(/pattern/g, by)` of a literal pattern; the number counts the characters of an occurrence
-- that are still to be skipped.
abbrev pub replace_from : Text → Text → ℕ → Text → Text
replace_from pattern by skip [] = []
replace_from pattern by (suc skip) (c ∷ s) = replace_from pattern by skip s
replace_from pattern by zero (c ∷ s) =
    let here = starts_with (c ∷ s) pattern in
    let rest = replace_from pattern by (if here then length pattern - 1 else 0) s in
    if here then by ++ rest else c ∷ rest

unfoldable pub replace_all : Text → Text → Text → Text
unfolding starts_with
replace_all pattern by s = replace_from pattern by 0 s

-- A row of `SEED_RECORDS`.
pub record Seed : Type 0 where
  pub purpose : Purpose
  pub kind : Text
  pub name : Text
  pub content : Text
  pub ttl : ℕ
  pub priority : Option ℕ

abbrev pub seed : Purpose → Text → Text → Text → ℕ → Seed
seed purpose kind name content ttl = record {
  purpose = purpose;
  kind = kind;
  name = name;
  content = content;
  ttl = ttl;
  priority = none;
}

-- `SEED_RECORDS`
abbrev pub seed_records : List Seed
seed_records =
    seed for_verification (codes "TXT") (codes "_justmail-verify.${DOMAIN}")
      (codes "justmail-verify=${TOKEN}") 300
    ∷ record {
      purpose = for_mx;
      kind = codes "MX";
      name = codes "${DOMAIN}";
      content = codes "mail.${MAIL_ROOT}";
      ttl = 3600;
      priority = some 10;
    }
    ∷ seed for_spf (codes "TXT") (codes "${DOMAIN}") (codes "v=spf1 mx include:${MAIL_ROOT} ~all")
        3600
    ∷ seed for_dmarc (codes "TXT") (codes "_dmarc.${DOMAIN}")
        (codes
          "v=DMARC1; p=quarantine; rua=mailto:dmarc@${DOMAIN}; ruf=mailto:dmarc@${DOMAIN}; fo=1")
        3600
    ∷ seed for_mta_sts (codes "TXT") (codes "_mta-sts.${DOMAIN}") (codes "v=STSv1; id=${TOKEN}")
        3600
    ∷ seed for_tls_rpt (codes "TXT") (codes "_smtp._tls.${DOMAIN}")
        (codes "v=TLSRPTv1; rua=mailto:tls-rpt@${DOMAIN}") 3600
    ∷ seed for_autoconfig (codes "CNAME") (codes "autoconfig.${DOMAIN}")
        (codes "autoconfig.${MAIL_ROOT}") 3600
    ∷ seed for_autodiscover (codes "CNAME") (codes "autodiscover.${DOMAIN}")
        (codes "autodiscover.${MAIL_ROOT}") 3600
    ∷ seed for_bimi (codes "TXT") (codes "default._bimi.${DOMAIN}")
        (codes "v=BIMI1; l=https://${DOMAIN}/.well-known/bimi-logo.svg; a=") 3600
    ∷ seed for_caa (codes "CAA") (codes "${DOMAIN}") (codes "0 issue \"letsencrypt.org\"") 3600
    ∷ []

-- `subst`
abbrev pub subst_all : Text → Text → Text → Text → Text
subst_all name token root s =
    replace_all (codes "${MAIL_ROOT}") root
      (replace_all (codes "${TOKEN}") token (replace_all (codes "${DOMAIN}") name s))

abbrev pub is_client_host : Purpose → Bool
is_client_host for_autoconfig = true
is_client_host for_autodiscover = true
is_client_host _ = false

abbrev pub is_spf : Purpose → Bool
is_spf for_spf = true
is_spf _ = false

-- The unique key (domain_id, purpose, name, type); a purpose by its place.
abbrev pub place : Purpose → ℕ
place for_verification = 0
place for_mx = 1
place for_spf = 2
place for_dkim = 3
place for_dmarc = 4
place for_mta_sts = 5
place for_tls_rpt = 6
place for_autoconfig = 7
place for_autodiscover = 8
place for_bimi = 9
place for_caa = 10
place for_custom = 11

abbrev pub same_record : DnsRow → DnsRow → Bool
same_record r x =
    x.domain_id == r.domain_id
    && place x.purpose == place r.purpose
    && text_eq x.name r.name
    && text_eq x.kind r.kind

-- `INSERT … ON CONFLICT DO NOTHING`
abbrev pub insert_record : DnsRow → List DnsRow → List DnsRow
insert_record r rows = if has (same_record r) rows then rows else rows ++ r ∷ []

abbrev pub record_of : ℕ → Purpose → Text → Text → Text → ℕ → Option ℕ → DnsRow
record_of domain purpose kind name content ttl priority = record {
  domain_id = domain;
  purpose = purpose;
  kind = kind;
  name = name;
  content = content;
  ttl = ttl;
  priority = priority;
  observed_content = none;
  check_status = unknown;
  last_checked_at = none;
}

abbrev pub seeded : Text → ℕ → Text → Text → Seed → DnsRow
seeded root domain name token s =
    record_of domain s.purpose s.kind (subst_all name token root s.name)
      (if is_spf s.purpose && text_eq name root
        then codes "v=spf1 mx ~all"
        else subst_all name token root s.content)
      s.ttl s.priority

abbrev pub seed_all : Text → ℕ → Text → Text → List Seed → List DnsRow → List DnsRow
seed_all root domain name token [] rows = rows
seed_all root domain name token (s ∷ seeds) rows = seed_all root domain name token seeds (
    if text_eq name root && is_client_host s.purpose
    then rows
    else insert_record (seeded root domain name token s) rows)

-- `MAIL_HOST_A_RECORDS`
abbrev pub mail_host_records : List (Purpose × Text)
mail_host_records =
    (for_custom, codes "mail.${MAIL_ROOT}")
    ∷ (for_autoconfig, codes "autoconfig.${MAIL_ROOT}")
    ∷ (for_autodiscover, codes "autodiscover.${MAIL_ROOT}")
    ∷ (for_mta_sts, codes "mta-sts.${MAIL_ROOT}")
    ∷ []

abbrev pub seed_hosts : Text → Text → ℕ → List (Purpose × Text) → List DnsRow → List DnsRow
seed_hosts root ip domain [] rows = rows
seed_hosts root ip domain ((purpose, name) ∷ hosts) rows = seed_hosts root ip domain hosts (
    insert_record
      (record_of domain purpose (codes "A") (replace_all (codes "${MAIL_ROOT}") root name) ip 3600
        none)
      rows)

-- `seedMailHostRecords`
unfoldable pub seed_mail_host_records : Text → Option Text → ℕ → List DnsRow → List DnsRow
seed_mail_host_records root none domain rows = rows
seed_mail_host_records root (some ip) domain rows = seed_hosts root ip domain mail_host_records rows

-- `seedDnsRecords`
unfoldable pub seed_dns_records : Text → Option Text → ℕ → Text → Text → List DnsRow → List DnsRow
seed_dns_records root ip domain name token rows =
    let all = seed_all root domain name token seed_records rows in
    if text_eq name root then seed_mail_host_records root ip domain all else all

-- `parts.slice(-2)`
abbrev pub last_two : List Text → List Text
last_two parts = drop (length parts - 2) parts

-- `extractRoot`; a host without a dot is one part.
unfoldable pub extract_root : Text → Text
extract_root host = join (codes ".") (last_two (split b'.' host))
