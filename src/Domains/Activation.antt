-- ===== src/Domains/Activation.antt =====
-- How a domain of apps/api/src/domains/domains.service.ts becomes active.
use justmail.Domains.{user_event}
use justmail.Prelude.{
  ℕ, ◌≡◌, ◌⊎◌, Bool, true, false, ◌&&◌, List, [], ◌∷◌, Option, none, some, Text, arith, refl, ◌==◌,
  inl, inr, Bool-cases, ok,
}
use justmail.Prelude.Table.{modify, first?, has, has-first?, first?-eq-some}
use justmail.Store.{Role, admin, DomainStatus, active_domain, DomainRow, DnsRow, Db, Principal}
use justmail.Orgs.{require_role, find_role}
use justmail.Mailboxes.{domain_at}
use justmail.Domains.{
  Domain, is_active, set_status, Resolved, is_proved, next_status, verify, UpdateDomain,
  apply_update, update, get, with_count,
}
use justmail.Domains.Change.{verify-eq-ok}

-- A row with this id that is active.
abbrev pub active_at : ℕ → DomainRow → Bool
active_at id d = d.id == id && is_active d.status

has-set_status :
    (i id : ℕ) (status : DomainStatus) (ds : List DomainRow)
    → has (active_at i) (modify (λ x. x.id == id) (set_status status) ds) ≡ true
    → (has (active_at i) ds ≡ true) ⊎ ((i ≡ id) × (is_active status ≡ true))
has-set_status i id status [] h = absurd (ground arith)
has-set_status i id status (d ∷ ds) h = elim (Bool-cases (active_at i d)) [
  | inl before ↦ inl (ground (arith, before))
  | inr idle ↦
      elim (Bool-cases (has (active_at i) (modify (λ x. x.id == id) (set_status status) ds))) [
        | inl later ↦ elim (has-set_status i id status ds later) [
          | inl old ↦ inl (ground (arith, old))
          | inr new ↦ inr new
        ]
        | inr none_later ↦ inr (ground arith, ground arith)
      ]
]

-- A verification makes active only the domain it is about, and only when the resolver answered, for
-- the name `_justmail-verify.` before the name of that domain, a record that is its token.
pub verify_proves :
    (root : Text) (ip : Option Text) (order : List DnsRow → List DnsRow) (fresh : ℕ → ℕ)
    (resolve_txt : Text → Resolved) (now : ℕ) (p : Principal) (org id : ℕ)
    (answer : DomainStatus × List DnsRow) (db db' : Db) (i : ℕ)
    → verify root ip order fresh resolve_txt now p org id db ≡ ok (answer, db')
    → has (active_at i) db.domains ≡ false
    → has (active_at i) db'.domains ≡ true
    → (i ≡ id)
      × (d : DomainRow) × (first? (domain_at org id) db.domains ≡ some d)
      × (is_proved resolve_txt d ≡ true)
verify_proves root ip order fresh resolve_txt now p org id answer db db' i h before after =
    let (d, found, told, rows) =
      verify-eq-ok root ip order fresh resolve_txt now p org id answer db db' h in
    let status = next_status (is_proved resolve_txt d) d.status in
    let met = first?-eq-some (domain_at org id) db.domains d found in
    elim (has-set_status i d.id status db.domains (ground (arith, rows))) [
      | inl old ↦ absurd (ground (arith, old))
      | inr (same, active) ↦ (
        ground (arith, met, same),
        d,
        found,
        elim (Bool-cases (is_proved resolve_txt d)) [
          | inl proved ↦ proved
          | inr unproved ↦ absurd (
              ground (
                arith,
                unproved,
                active,
                same,
                has-first? (domain_at org id) (active_at d.id) db.domains d found,
              ))
        ],
      )
    ]

-- The request `{ status: "active" }`.
abbrev pub activation : UpdateDomain
activation = record {
  is_primary = none;
  catch_all_target = none;
  max_mailboxes = none;
  max_quota_mb = none;
  outbound_mode = none;
  retention_days = none;
  status = some active_domain;
}

first?-activation :
    (org id : ℕ) (ds : List DomainRow) (d : DomainRow)
    → first? (domain_at org id) ds ≡ some d
    → first? (domain_at org id) (modify (λ x. x.id == id) (apply_update activation) ds)
      ≡ some (apply_update activation d)
first?-activation org id [] d h = absurd (ground arith)
first?-activation org id (x ∷ ds) d h = ground (arith, first?-activation org id ds d)

-- An admin activates a domain of the organization in whatever state, without any DNS record, by an
-- update that sets the status.
pub update_activates :
    (now : ℕ) (p : Principal) (org id : ℕ) (db : Db) (d : DomainRow) (r : Role)
    → require_role now org p.user_id admin db ≡ ok r
    → first? (domain_at org id) db.domains ≡ some d
    → (a : Domain) × (db' : Db) × (update now p org id activation db ≡ ok (a, db'))
      × (a.row ≡ set_status active_domain d)
      × (first? (domain_at org id) db'.domains ≡ some a.row)
unfolding update get require_role find_role
update_activates now p org id db d r allowed found =
    let after = first?-activation org id db.domains d found in
    let db' : Db =
      user_event org p.user_id "domain.update" "domain" id
        (record db { domains = modify (λ x. x.id == id) (apply_update activation) db.domains }) in
    (with_count db' (apply_update activation d), db', ground (arith, after), refl, after)
