-- ===== src/Domains/Logos.antt =====
-- The methods of apps/api/src/domains/domains.service.ts for the brand logo of a domain. The objects
-- of the storage are a function of the organization and the key.
use justmail.Prelude.{
  ℕ, ◌*◌, Bool, true, false, not, ◌&&◌, [], ◌∷◌, ◌++◌, Option, none, some, Text, codes, text_eq,
  length, ltb, ◌==◌, if◌then◌else◌, Result, ok, err, bad_request, not_found, ◌>>=◌, ◌>>◌, throw_if,
}
use justmail.Prelude.Table.{modify, first?}
use justmail.Prelude.Texts.{to_lower}
use justmail.Store.{admin, viewer, for_dmarc, DomainRow, DnsRow, Db, Principal}
use justmail.Orgs.{require_role, is_none}
use justmail.Orgs.Members.{user_event}
use justmail.Mailboxes.{domain_at}
use justmail.Domains.{get, is_active}
use justmail.Domains.Bimi.{validate_bimi_svg, logo_url, record_content, dmarc_policy, dmarc_ok}

abbrev pub Storage : Type 0
Storage = ℕ → Text → Option Text

abbrev pub put : ℕ → Text → Option Text → Storage → Storage
put org key body storage org' key' =
    if org == org' && text_eq key key' then body else storage org' key'

-- `BimiStatus`
pub record BimiStatus : Type 0 where
  pub has_logo : Bool
  pub record_text : Text
  pub logo_url : Text
  pub logo_data_url : Option Text
  pub dmarc_policy : Option Text
  pub dmarc_ok : Bool

abbrev pub is_dmarc : ℕ → DnsRow → Bool
is_dmarc id r = r.domain_id == id && (elim r.purpose [ for_dmarc ↦ true | _ ↦ false ])

abbrev pub content_of : Option DnsRow → Option Text
content_of none = none
content_of (some r) = some r.content

abbrev pub row_or_throw : Option DomainRow → Result DomainRow
row_or_throw none = err (not_found "Domain not found")
row_or_throw (some d) = ok d

-- `if (rows[0].bimi_logo_key)`: a key, and not the empty one.
abbrev pub truthy : Option Text → Option Text
truthy none = none
truthy (some []) = none
truthy (some (c ∷ s)) = some (c ∷ s)

-- `bimiStorageKey`
abbrev pub storage_key : (ℕ → Text) → ℕ → Text
storage_key print id = codes "bimi/" ++ (print id ++ codes ".svg")

abbrev pub set_logo : Option Text → DomainRow → DomainRow
set_logo key d = record d { bimi_logo_key = key }

abbrev pub without_logo : ℕ → Principal → ℕ → ℕ → Option Text → Storage → Db → Storage × Db
without_logo now p org id none storage db = (storage, db)
without_logo now p org id (some key) storage db = (
  put org key none storage,
  user_event org p.user_id "domain.bimi.remove" "domain" id
      (record db { domains = modify (λ d. d.id == id) (set_logo none) db.domains }),
)

module _ (decode base64 : Text → Text) (print : ℕ → Text) where
  -- `streamToBuffer` of at most 256 KB, as a data URL.
  abbrev pub data_url : Option Text → Option Text
  data_url none = none
  data_url (some body) =
      if ltb (256 * 1024) (length body)
      then none
      else some (codes "data:image/svg+xml;base64," ++ base64 body)

  abbrev pub load : ℕ → Storage → Option Text → Option Text
  load org storage none = none
  load org storage (some key) = data_url (storage org key)

  abbrev pub status_of : ℕ → DomainRow → Storage → Option Text → BimiStatus
  status_of org d storage policy = record {
    has_logo = not (is_none d.bimi_logo_key);
    record_text = record_content d.name;
    logo_url = logo_url d.name;
    logo_data_url = load org storage (truthy d.bimi_logo_key);
    dmarc_policy = policy;
    dmarc_ok = dmarc_ok policy;
  }

  -- `getBimi`
  unfoldable pub get_bimi : ℕ → ℕ → ℕ → ℕ → Storage → Db → Result BimiStatus
  get_bimi now org id user storage db = do
    require_role now org user viewer db
    d ← row_or_throw (first? (domain_at org id) db.domains)
    ok (status_of org d storage (dmarc_policy (content_of (first? (is_dmarc id) db.dns_records))))

  -- `uploadBimi`
  unfoldable pub upload_bimi :
      ℕ
      → Principal
      → ℕ
      → ℕ
      → Text
      → Option Text
      → Storage
      → Db
      → Result (BimiStatus × (Storage × Db))
  upload_bimi now p org id body kind storage db = do
    require_role now org p.user_id admin db
    old ← get now org id p.user_id db
    throw_if (not (is_none (validate_bimi_svg decode body kind))) (bad_request "Invalid BIMI logo")
    let key = storage_key print id
    let storage' = put org key (some body) storage
    let db' =
        user_event org p.user_id "domain.bimi.upload" "domain" id
          (record db { domains = modify (λ d. d.id == id) (set_logo (some key)) db.domains })
    status ← get_bimi now org id p.user_id storage' db'
    ok (status, (storage', db'))

  -- `removeBimi`, where the storage answers.
  unfoldable pub remove_bimi :
      ℕ → Principal → ℕ → ℕ → Storage → Db → Result (BimiStatus × (Storage × Db))
  remove_bimi now p org id storage db = do
    require_role now org p.user_id admin db
    d ← row_or_throw (first? (domain_at org id) db.domains)
    let next = without_logo now p org id (truthy d.bimi_logo_key) storage db
    status ← get_bimi now org id p.user_id next.0 next.1
    ok (status, next)

-- `name = $1 AND status = 'active'`
abbrev pub serves : Text → DomainRow → Bool
serves host d = text_eq (to_lower d.name) host && is_active d.status

abbrev pub logo_of : Option DomainRow → Option (ℕ × Text)
logo_of none = none
logo_of (some d) = elim (truthy d.bimi_logo_key) [ none ↦ none | some key ↦ some (d.org_id, key) ]

-- `bimiLogoForHost`
unfoldable pub bimi_logo_for_host : Text → Db → Option (ℕ × Text)
bimi_logo_for_host host db = logo_of (first? (serves (to_lower host)) db.domains)
