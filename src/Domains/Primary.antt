-- ===== src/Domains/Primary.antt =====
-- The keys and the primary domain of apps/api/src/domains/domains.service.ts.
use justmail.Prelude.{
  ℕ, ◌≡◌, Bool, true, false, not, ◌&&◌, ◌||◌, List, [], ◌∷◌, Option, none, some, Text, text_eq,
  arith, refl, ◌==◌, inl, inr, Bool-cases, All,
}
use justmail.Prelude.Table.{modify, first?, has, first?-eq-some, has-first?}
use justmail.Prelude.Texts.{to_lower}
use justmail.Prelude.Keys.{
  IsUnique, IsUnique-append, IsUnique-exclude, IsUnique-modify, IsUnique-modify_within,
}
use justmail.Store.{DomainRow, Db}
use justmail.Mailboxes.{domain_at}
use justmail.Domains.{
  is_set, demoted, new_domain, taken, primary_of, demote, UpdateDomain, apply_update, other_primary,
  set_status, is_proved, next_status,
}
use justmail.Domains.Logos.{set_logo, storage_key}
use justmail.Domains.Change.{
  Change, by_create, by_update, by_remove, by_verify, by_upload_bimi, by_remove_bimi,
  upload_bimi-eq-ok, remove_bimi-eq-ok, create-eq-ok, update-eq-ok, remove-eq-ok, verify-eq-ok,
}

-- Two rows that may not stand side by side: with one id, with one name whatever its case, or both
-- primary in one organization.
abbrev pub clash : DomainRow → DomainRow → Bool
clash a b =
    a.id == b.id
    || text_eq (to_lower a.name) (to_lower b.name)
    || a.org_id == b.org_id && (a.is_primary && b.is_primary)

create_free :
    (b : Bool) (id org : ℕ) (name token : Text) (ds : List DomainRow)
    → has (taken id name) ds ≡ false
    → has (λ x. clash x (new_domain id org name token b)) (demote b (primary_of org) ds) ≡ false
create_free false id org name token [] h = refl
create_free true id org name token [] h = refl
create_free false id org name token (d ∷ ds) h =
    ground (arith, create_free false id org name token ds)
create_free true id org name token (d ∷ ds) h =
    ground (arith, create_free true id org name token ds)

All-units : {A : Type 0} (xs : List A) → All (λ (x : A). Unit {0}) xs
All-units [] = tt
All-units (x ∷ xs) = (tt, All-units xs)

demote-IsUnique :
    (b : Bool) (p : DomainRow → Bool) (ds : List DomainRow)
    → IsUnique clash ds
    → IsUnique clash (demote b p ds)
demote-IsUnique false p ds h = h
demote-IsUnique true p ds h =
    IsUnique-modify_within clash (λ x. Unit {0}) p demoted ds (All-units ds)
      (λ x y _ _ c. ground arith) h

-- The row with the id is of the organization.
abbrev owned : ℕ → ℕ → DomainRow → Bool
owned org id x = not (x.id == id) || x.org_id == org

none_else :
    (org id : ℕ) (x : DomainRow) (ys : List DomainRow)
    → has (clash x) ys ≡ false
    → x.id ≡ id
    → All (λ y. owned org id y ≡ true) ys
none_else org id x [] h e = tt
none_else org id x (y ∷ ys) h e = (ground arith, none_else org id x ys (ground arith) e)

-- The id of a domain that was found belongs to no row of another organization.
found-owned :
    (org id : ℕ) (ds : List DomainRow) (d : DomainRow)
    → IsUnique clash ds
    → first? (domain_at org id) ds ≡ some d
    → All (λ y. owned org id y ≡ true) ds
found-owned org id [] d h found = absurd (ground arith)
found-owned org id (x ∷ ds) d (hx, h) found = elim (Bool-cases (domain_at org id x)) [
  | inl here ↦ (ground arith, none_else org id x ds hx (ground arith))
  | inr missed ↦
      let there : first? (domain_at org id) ds ≡ some d = ground (arith, missed) in
      let met = first?-eq-some (domain_at org id) ds d there in
      (
        elim (Bool-cases (x.id == id)) [
          | inl same ↦
              absurd (ground (arith, met, has-first? (domain_at org id) (clash x) ds d there))
          | inr apart ↦ ground arith
        ],
        found-owned org id ds d h there,
      )
]

-- After the first statement of `update`, no other row of the organization is primary.
demoted_others :
    (org id : ℕ) (b : Bool) (ds : List DomainRow)
    → All (λ y. owned org id y ≡ true) ds
    → All
        (λ y. (owned org id y ≡ true) × ((b && other_primary org id y) ≡ false))
        (demote b (other_primary org id) ds)
demoted_others org id false [] h = tt
demoted_others org id true [] h = tt
demoted_others org id false (d ∷ ds) (hd, h) = ((hd, refl), demoted_others org id false ds h)
demoted_others org id true (d ∷ ds) (hd, h) =
    ((ground arith, ground arith), demoted_others org id true ds h)

set-IsUnique :
    (org id : ℕ) (req : UpdateDomain) (ds : List DomainRow)
    → All
        (λ y. (owned org id y ≡ true) × ((is_set req.is_primary && other_primary org id y) ≡ false))
        ds
    → IsUnique clash ds
    → IsUnique clash (modify (λ d. d.id == id) (apply_update req) ds)
set-IsUnique org id req ds hs =
    IsUnique-modify_within clash
      (λ y. (owned org id y ≡ true) × ((is_set req.is_primary && other_primary org id y) ≡ false))
      (λ d. d.id == id) (apply_update req) ds hs (λ x y hx hy c. ground arith)

-- Whatever request of the service succeeds: where no two domains had one id or one name, and no
-- organization two primary domains, it is so after the request.
pub Change-keeps_primary :
    (root : Text) (ip : Option Text) (db db' : Db)
    → IsUnique clash db.domains
    → Change root ip db db'
    → IsUnique clash db'.domains
Change-keeps_primary root ip db db' h (by_create now id token p org name primary d e) =
    let (rows, free) = create-eq-ok root ip now id token p org name primary d db db' e in
    rw rows (
      IsUnique-append clash (demote (is_set primary) (primary_of org) db.domains)
        (new_domain id org (to_lower name) token (is_set primary))
        (create_free (is_set primary) id org (to_lower name) token db.domains free)
        (demote-IsUnique (is_set primary) (primary_of org) db.domains h))
Change-keeps_primary root ip db db' h (by_update now p org id req d e) =
    let (old, found, rows) = update-eq-ok now p org id req d db db' e in
    rw rows (
      set-IsUnique org id req (demote (is_set req.is_primary) (other_primary org id) db.domains)
        (demoted_others org id (is_set req.is_primary) db.domains
          (found-owned org id db.domains old.row h found))
        (demote-IsUnique (is_set req.is_primary) (other_primary org id) db.domains h))
Change-keeps_primary root ip db db' h (by_remove now p org id e) =
    rw (remove-eq-ok now p org id db db' e) (IsUnique-exclude clash (λ d. d.id == id) db.domains h)
Change-keeps_primary root ip db db' h (by_verify order fresh resolve_txt now p org id answer e) =
    let (d, found, told, rows) =
      verify-eq-ok root ip order fresh resolve_txt now p org id answer db db' e in
    rw rows (
      IsUnique-modify clash (λ x. x.id == d.id)
        (set_status (next_status (is_proved resolve_txt d) d.status)) db.domains (λ x y. refl)
        (λ x y. refl) h)
Change-keeps_primary root ip db db' h
      (by_upload_bimi decode base64 print now p org id body kind storage storage' status e) =
    rw
      (upload_bimi-eq-ok decode base64 print now p org id body kind storage storage' status db db'
        e)
      (IsUnique-modify clash (λ d. d.id == id) (set_logo (some (storage_key print id))) db.domains
        (λ x y. refl) (λ x y. refl) h)
Change-keeps_primary root ip db db' h
      (by_remove_bimi decode base64 print now p org id storage storage' status e) =
    elim (remove_bimi-eq-ok decode base64 print now p org id storage storage' status db db' e) [
      | inl same ↦ rw same h
      | inr rows ↦ rw rows (
          IsUnique-modify clash (λ d. d.id == id) (set_logo none) db.domains (λ x y. refl)
            (λ x y. refl) h)
    ]
