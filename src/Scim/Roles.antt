-- ===== src/Scim/Roles.antt =====
-- The roles that `recomputeRoles` of apps/api/src/scim/scim.service.ts writes.
use justmail.Prelude.{
  ℕ, ◌≡◌, ◌≢◌, ◌⊎◌, Bool, true, false, List, [], ◌∷◌, some, Text, arith, ◌==◌, inl, inr, Bool-cases,
  ◌||◌, refl, ◌∙◌,
}
use justmail.Prelude.Table.{first?}
use justmail.Store.{Db, member_at}
use justmail.Orgs.Members.{new_member}
use justmail.Invites.{upsert}
use justmail.Invites.Acceptance.{upsert_self, upsert_ne}
use justmail.Scim.{ScimContext}
use justmail.Scim.Groups.{role_of, recompute_roles}

abbrev pub among : ℕ → List ℕ → Bool
among u [] = false
among u (v ∷ vs) = v == u || among u vs

module _ (lower_case : Text → Text) (ctx : ScimContext) where
  still :
      (v : ℕ) (vs : List ℕ) (o u : ℕ)
      → (o ≢ ctx.org_id) ⊎ (among u (v ∷ vs) ≡ false)
      → (o ≢ ctx.org_id) ⊎ (among u vs ≡ false)
  still v vs o u h = ground arith

  differs :
      (v : ℕ) (vs : List ℕ) (o u : ℕ)
      → (o ≢ ctx.org_id) ⊎ (among u (v ∷ vs) ≡ false)
      → (o ≢ ctx.org_id) ⊎ (u ≢ v)
  differs v vs o u h = ground arith

  -- An account that is not named keeps its membership, and so does every account in another
  -- organization.
  pub recompute_roles_ne :
      (users : List ℕ) (db : Db) (o u : ℕ)
      → (o ≢ ctx.org_id) ⊎ (among u users ≡ false)
      → first? (member_at o u) (recompute_roles lower_case ctx users db).members
        ≡ first? (member_at o u) db.members
  unfolding recompute_roles
  recompute_roles_ne [] db o u h = refl
  recompute_roles_ne (v ∷ vs) db o u h =
      recompute_roles_ne vs
        (record db { members = upsert ctx.org_id v (role_of lower_case ctx v db) db.members }) o u
        (still v vs o u h)
      ∙ upsert_ne ctx.org_id v o u (role_of lower_case ctx v db) db.members (differs v vs o u h)

  written :
      (v u : ℕ) (db : Db)
      → u ≡ v
      → first?
          (member_at ctx.org_id u)
          (upsert ctx.org_id v (role_of lower_case ctx v db) db.members)
        ≡ some (new_member ctx.org_id u (role_of lower_case ctx u db))
  written v u db same = rw same (upsert_self ctx.org_id v (role_of lower_case ctx v db) db.members)

  -- A named account has the role of its groups, whatever membership it had.
  pub recompute_roles_self :
      (users : List ℕ) (db : Db) (u : ℕ)
      → among u users ≡ true
      → first? (member_at ctx.org_id u) (recompute_roles lower_case ctx users db).members
        ≡ some (new_member ctx.org_id u (role_of lower_case ctx u db))
  unfolding recompute_roles
  recompute_roles_self [] db u h = absurd (ground arith)
  recompute_roles_self (v ∷ vs) db u h = elim (Bool-cases (among u vs)) [
    | inl again ↦
        recompute_roles_self vs
          (record db { members = upsert ctx.org_id v (role_of lower_case ctx v db) db.members }) u
          again
    | inr not_again ↦
        recompute_roles_ne vs
          (record db { members = upsert ctx.org_id v (role_of lower_case ctx v db) db.members })
          ctx.org_id u (inr not_again)
        ∙ written v u db (ground arith)
  ]
