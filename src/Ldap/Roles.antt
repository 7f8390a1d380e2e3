-- ===== src/Ldap/Roles.antt =====
-- What `resolveRole` of apps/api/src/ldap/mapping.ts chooses.
use justmail.Prelude.{
  ◌≤◌, ◌≡◌, ◌⊎◌, List, [], ◌∷◌, Option, none, some, Text, text_eq, text_eq_iff, refl, arith, inl,
  inr, Option-cases, Bool-cases, All, if◌then◌else◌, ltb,
}
use justmail.Store.{Role}
use justmail.Orgs.{rank}
use justmail.Ldap.{
  normalize_dn, normalized_map, put_role, role_for, best_role, better, resolve_role,
}

-- The role that the last entry of the configured map gives the group: an independent reading of it.
abbrev pub or_else : Option Role → Option Role → Option Role
or_else none r = r
or_else (some q) r = some q

module _ (lower_case : Text → Text) where
  unfoldable pub mapped_role : Text → List (Text × Role) → Option Role
  mapped_role g [] = none
  mapped_role g ((dn, role) ∷ rest) =
      or_else (mapped_role g rest)
        (if text_eq (normalize_dn lower_case dn) g then some role else none)

  role_for-put_role :
      (g dn : Text) (role : Role) (m : List (Text × Role))
      → role_for g (put_role dn role m) ≡ (if text_eq dn g then some role else role_for g m)
  role_for-put_role g dn role [] = refl
  role_for-put_role g dn role ((k, r) ∷ rest) =
      ground (
        arith,
        role_for-put_role g dn role rest,
        text_eq_iff k dn,
        text_eq_iff dn g,
        text_eq_iff k g,
      )

  role_for-normalized_map :
      (g : Text) (done m : List (Text × Role))
      → role_for g (normalized_map lower_case done m) ≡ or_else (mapped_role g m) (role_for g done)
  unfolding normalized_map mapped_role
  role_for-normalized_map g done [] = refl
  role_for-normalized_map g done ((dn, role) ∷ rest) = ground (
    arith,
    role_for-normalized_map g (put_role (normalize_dn lower_case dn) role done) rest,
    role_for-put_role g (normalize_dn lower_case dn) role done,
  )

  module _ (m : List (Text × Role)) where
    -- The role that the configuration gives a group as it is spelt in the list.
    abbrev pub role_of : Text → Option Role
    role_of g = mapped_role (normalize_dn lower_case g) m

    -- No group of the list is given a role that ranks above `r`.
    abbrev pub IsAbove : Role → List Text → Type 0
    IsAbove r = All (λ g. (q : Role) → role_of g ≡ some q → rank q ≤ rank r)

    -- Some group of the list is given the role `r`.
    pub data Gives (r : Role) : List Text → Type 0 where
      here : {g : Text} {gs : List Text} → role_of g ≡ some r → Gives r (g ∷ gs)
      there : {g : Text} {gs : List Text} → Gives r gs → Gives r (g ∷ gs)

    role_for_normalized :
        (g : Text)
        → role_for (normalize_dn lower_case g) (normalized_map lower_case [] m) ≡ role_of g
    role_for_normalized g = ground (
      arith,
      role_for-normalized_map (normalize_dn lower_case g) [] m,
      Option-cases (mapped_role (normalize_dn lower_case g) m),
    )

    pick : Option Role → List Text → Option Role
    pick = best_role lower_case (normalized_map lower_case [] m)

    pick_from :
        (q : Role) (gs : List Text) → (r : Role) × (pick (some q) gs ≡ some r) × (rank q ≤ rank r)
    unfolding best_role pick
    pick_from q [] = (q, refl, omega arith)
    pick_from q (g ∷ gs) = elim (Option-cases (role_of g)) [
      | inl no_role ↦ ground (arith, pick_from q gs, role_for_normalized g)
      | inr (new, given) ↦ ground (arith, pick_from q gs, pick_from new gs, role_for_normalized g)
    ]

    pick-IsAbove :
        (best : Option Role) (gs : List Text) (r : Role) → pick best gs ≡ some r → IsAbove r gs
    unfolding best_role pick
    pick-IsAbove best [] r h = tt
    pick-IsAbove best (g ∷ gs) r h = (
      λ q given. elim (Option-cases best) [
        | inl first ↦ ground (arith, pick_from q gs, role_for_normalized g)
        | inr (old, set) ↦ ground (arith, pick_from q gs, pick_from old gs, role_for_normalized g)
      ],
      pick-IsAbove (better lower_case (role_of g) best) gs r
          (ground (arith, role_for_normalized g)),
    )

    pick-Gives :
        (best : Option Role) (gs : List Text) (r : Role)
        → pick best gs ≡ some r
        → (best ≡ some r) ⊎ Gives r gs
    unfolding best_role pick
    pick-Gives best [] r h = inl h
    pick-Gives best (g ∷ gs) r h =
        elim (pick-Gives (better lower_case (role_of g) best) gs r
          (ground (arith, role_for_normalized g))) [
            | inr later ↦ inr (there later)
            | inl chosen ↦ elim (Option-cases (role_of g)) [
              | inl no_role ↦ inl (ground arith)
              | inr (new, given) ↦ elim (Option-cases best) [
                | inl first ↦ inr (here (ground arith))
                | inr (old, set) ↦ elim (Bool-cases (ltb (rank old) (rank new))) [
                  | inl higher ↦ inr (here (ground arith))
                  | inr kept ↦ inl (ground arith)
                ]
              ]
            ]
          ]

    pick-none : (gs : List Text) → pick none gs ≡ none → All (λ g. role_of g ≡ none) gs
    unfolding best_role pick
    pick-none [] h = tt
    pick-none (g ∷ gs) h = elim (Option-cases (role_of g)) [
      | inl no_role ↦ (no_role, pick-none gs (ground (arith, role_for_normalized g)))
      | inr (new, given) ↦ absurd (ground (arith, pick_from new gs, role_for_normalized g))
    ]

    -- The resolved role is the highest that the configured map gives any of the user's groups, where
    -- of two entries that normalize to the same name the later counts; when no group is mapped it is
    -- the directory's default.
    pub resolve_role_lem :
        (gs : List Text) (default_role : Role)
        → (Gives (resolve_role lower_case gs m default_role) gs
            × IsAbove (resolve_role lower_case gs m default_role) gs)
          ⊎ ((resolve_role lower_case gs m default_role ≡ default_role)
              × All (λ g. role_of g ≡ none) gs)
    unfolding resolve_role pick
    resolve_role_lem gs default_role = elim (Option-cases (pick none gs)) [
      | inl nothing ↦ inr (ground arith, pick-none gs nothing)
      | inr (r, chosen) ↦ rw chosen (elim (pick-Gives none gs r chosen) [
        | inl impossible ↦ absurd (ground arith)
        | inr given ↦ inl (given, pick-IsAbove none gs r chosen)
      ])
    ]
