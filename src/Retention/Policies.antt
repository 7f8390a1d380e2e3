-- ===== src/Retention/Policies.antt =====
-- What `updatePolicy` of apps/api/src/retention/retention.service.ts leaves in the table.
use justmail.Prelude.{
  ℕ, ◌≡◌, ◌⊎◌, true, false, List, [], ◌∷◌, ◌++◌, none, some, Text, ok, arith, refl, inl, inr,
  Option-cases, if◌then◌else◌,
}
use justmail.Prelude.Table.{first?, has, modify}
use justmail.Store.{PolicyRow, Db, Principal}
use justmail.Retention.{UpdateRetentionRequest, update_policy, policy_of, new_policy, apply_request}

first-has :
    (org : ℕ) (rs : List PolicyRow)
    → first? (policy_of org) rs ≡ none
    → has (policy_of org) rs ≡ false
first-has org [] h = refl
first-has org (r ∷ rs) h = ground (arith, first-has org rs)

has-first :
    (org : ℕ) (rs : List PolicyRow) (r : PolicyRow)
    → first? (policy_of org) rs ≡ some r
    → has (policy_of org) rs ≡ true
has-first org [] r h = ground arith
has-first org (q ∷ rs) r h = ground (arith, has-first org rs r)

first-append :
    (org : ℕ) (x : PolicyRow) (rs : List PolicyRow)
    → first? (policy_of org) rs ≡ none
    → x.org_id ≡ org
    → first? (policy_of org) (rs ++ x ∷ []) ≡ some x
first-append org x [] h e = ground arith
first-append org x (r ∷ rs) h e = ground (arith, first-append org x rs)

first-modify :
    (org now actor : ℕ) (req : UpdateRetentionRequest) (rs : List PolicyRow) (r : PolicyRow)
    → first? (policy_of org) rs ≡ some r
    → first? (policy_of org) (modify (policy_of org) (apply_request now actor req) rs)
      ≡ some (apply_request now actor req r)
first-modify org now actor req [] r h = ground arith
first-modify org now actor req (q ∷ rs) r h = ground (arith, first-modify org now actor req rs r)

-- What the update writes to the table.
updated :
    (folders : List Text) (now : ℕ) (p : Principal) (org : ℕ) (req : UpdateRetentionRequest)
    (db db' : Db)
    → update_policy folders now p org req db ≡ ok db'
    → db'.policies ≡ (
        if has (policy_of org) db.policies
        then modify (policy_of org) (apply_request now p.user_id req) db.policies
        else db.policies ++ new_policy folders now org (some p.user_id) ∷ [])
unfolding update_policy
updated folders now p org req db db' h = ground arith

-- An update of the policy writes the requested fields over a row that is there, and keeps the others.
-- Where the organization has no row yet the row that is inserted is the default one, disabled and
-- without an age, whatever was requested.
pub update_policy_lem :
    (folders : List Text) (now : ℕ) (p : Principal) (org : ℕ) (req : UpdateRetentionRequest)
    (db db' : Db)
    → update_policy folders now p org req db ≡ ok db'
    → ((r : PolicyRow) × (first? (policy_of org) db.policies ≡ some r)
        × (first? (policy_of org) db'.policies ≡ some (apply_request now p.user_id req r)))
      ⊎ ((first? (policy_of org) db.policies ≡ none)
          × (first? (policy_of org) db'.policies
              ≡ some (new_policy folders now org (some p.user_id))))
update_policy_lem folders now p org req db db' h =
    rw (updated folders now p org req db db' h)
      (elim (Option-cases (first? (policy_of org) db.policies)) [
        | inl missing ↦ rw (first-has org db.policies missing) (
            inr (
              missing,
              first-append org (new_policy folders now org (some p.user_id)) db.policies missing
                  refl,
            ))
        | inr (r, found) ↦
            rw (has-first org db.policies r found)
              (inl (r, found, first-modify org now p.user_id req db.policies r found))
      ])
