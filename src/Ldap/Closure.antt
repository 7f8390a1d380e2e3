-- ===== src/Ldap/Closure.antt =====
-- `expandGroups` of apps/api/src/ldap/mapping.ts against reachability in the graph of groups.
use justmail.Prelude.{
  ℕ, zero, suc, ◌+◌, ◌≡◌, ◌≤◌, true, false, not, ◌&&◌, ◌||◌, List, [], ◌∷◌, ◌++◌, some, Text, refl,
  arith, if◌then◌else◌, length, map, text_eq, text_eq_iff, text_eq_refl, Bool-cases, inl, inr,
  length-append, subst,
}
use justmail.Ldap.{contains, parents_of, normalize_dn, offer, expand}

pub contains-append :
    (g : Text) (xs ys : List Text) → contains g (xs ++ ys) ≡ (contains g xs || contains g ys)
contains-append g [] ys = refl
contains-append g (x ∷ xs) ys = ground (arith, contains-append g xs ys)

-- The entries of the map that are not visited yet bound what the queue may still be given.
abbrev pub weight : List Text → List (Text × List Text) → ℕ
weight seen [] = 0
weight seen ((k, ps) ∷ rest) = (if contains k seen then 0 else length ps) + weight seen rest

weight-le :
    (g : Text) (seen : List Text) (parents : List (Text × List Text))
    → weight (seen ++ g ∷ []) parents ≤ weight seen parents
weight-le g seen [] = omega arith
weight-le g seen ((k, ps) ∷ rest) =
    ground (arith, weight-le g seen rest, contains-append k seen (g ∷ []))

weight-visit :
    (g : Text) (seen : List Text) (parents : List (Text × List Text))
    → contains g seen ≡ false
    → weight (seen ++ g ∷ []) parents + length (parents_of g parents) ≤ weight seen parents
weight-visit g seen [] h = omega arith
weight-visit g seen ((k, ps) ∷ rest) h = elim (Bool-cases (text_eq k g)) [
  | inl same ↦
      rw ((text_eq_iff k g).0 same)
        (ground (arith, weight-le g seen rest, contains-append g seen (g ∷ []), text_eq_refl g))
  | inr other ↦ ground (
    arith,
    weight-visit g seen rest h,
    contains-append k seen (g ∷ []),
    text_eq_iff k g,
    text_eq_iff g k,
  )
]

module _ (lower_case : Text → Text) where
  length-offer :
      (seen queue ps : List Text)
      → length (offer lower_case seen queue ps) ≤ length queue + length ps
  unfolding offer
  length-offer seen queue [] = omega arith
  length-offer seen queue (p ∷ ps) = ground (
    arith,
    length-offer seen queue ps,
    length-offer seen (queue ++ normalize_dn lower_case p ∷ []) ps,
    length-append queue (normalize_dn lower_case p ∷ []),
  )

  pub contains-offer :
      (g : Text) (seen queue ps : List Text)
      → contains g (offer lower_case seen queue ps) ≡ (
          contains g queue
          || (contains g (map (normalize_dn lower_case) ps) && not (contains g seen)))
  unfolding offer
  contains-offer g seen queue [] = ground arith
  contains-offer g seen queue (p ∷ ps) =
      let q = normalize_dn lower_case p in
      ground (
        arith,
        contains-offer g seen queue ps,
        contains-offer g seen (queue ++ q ∷ []) ps,
        contains-append g queue (q ∷ []),
        text_eq_iff q g,
      )

  module _ (parents : List (Text × List Text)) where
    pub expand_total :
        (fuel : ℕ) (seen queue : List Text)
        → length queue + weight seen parents ≤ fuel
        → (res : List Text) × (expand lower_case parents fuel seen queue ≡ some res)
    unfolding expand
    expand_total zero seen [] le = (seen, refl)
    expand_total zero seen (g ∷ queue) le = absurd (ground arith)
    expand_total (suc fuel) seen [] le = (seen, refl)
    expand_total (suc fuel) seen (g ∷ queue) le = elim (Bool-cases (contains g seen)) [
      | inl old ↦ rw old (expand_total fuel seen queue (ground arith))
      | inr new ↦ rw new (
          expand_total fuel (seen ++ g ∷ [])
            (offer lower_case (seen ++ g ∷ []) queue (parents_of g parents))
            (ground (
              arith,
              weight-visit g seen parents new,
              length-offer (seen ++ g ∷ []) queue (parents_of g parents),
            )))
    ]

    module _ (direct : List Text) where
      -- The groups the user is in: the direct ones, and the parents of one that he is in.
      pub data Belongs : Text → Type 0 where
        as_member :
            {g : Text} → contains g (map (normalize_dn lower_case) direct) ≡ true → Belongs g
        as_parent :
            {g p : Text}
            → Belongs g
            → contains p (map (normalize_dn lower_case) (parents_of g parents)) ≡ true
            → Belongs p

      -- Every group of the list is one of the user's.
      abbrev pub AreSound : List Text → Type 0
      AreSound xs = (g : Text) → contains g xs ≡ true → Belongs g

      tail-AreSound : (g : Text) (queue : List Text) → AreSound (g ∷ queue) → AreSound queue
      tail-AreSound g queue h x e = h x (ground arith)

      head-Belongs : (g : Text) (queue : List Text) → AreSound (g ∷ queue) → Belongs g
      head-Belongs g queue h = h g (ground (arith, text_eq_refl g))

      seen-AreSound :
          (g : Text) (seen : List Text) → AreSound seen → Belongs g → AreSound (seen ++ g ∷ [])
      seen-AreSound g seen h hg x e = elim (Bool-cases (contains x seen)) [
        | inl before ↦ h x before
        | inr new ↦
            subst Belongs ((text_eq_iff g x).0 (ground (arith, contains-append x seen (g ∷ [])))) hg
      ]

      queue-AreSound :
          (g : Text) (seen queue : List Text)
          → AreSound queue
          → Belongs g
          → AreSound (offer lower_case seen queue (parents_of g parents))
      queue-AreSound g seen queue h hg x e = elim (Bool-cases (contains x queue)) [
        | inl before ↦ h x before
        | inr new ↦
            as_parent hg (ground (arith, contains-offer x seen queue (parents_of g parents)))
      ]

      pub expand-AreSound :
          (fuel : ℕ) (seen queue res : List Text)
          → expand lower_case parents fuel seen queue ≡ some res
          → AreSound seen
          → AreSound queue
          → AreSound res
      unfolding expand
      expand-AreSound zero seen [] res e hs hq = subst AreSound (ground arith) hs
      expand-AreSound zero seen (g ∷ queue) res e hs hq = absurd (ground arith)
      expand-AreSound (suc fuel) seen [] res e hs hq = subst AreSound (ground arith) hs
      expand-AreSound (suc fuel) seen (g ∷ queue) res e hs hq =
          elim (Bool-cases (contains g seen)) [
            | inl old ↦
                expand-AreSound fuel seen queue res (ground arith) hs (tail-AreSound g queue hq)
            | inr new ↦
                let hg = head-Belongs g queue hq in
                expand-AreSound fuel (seen ++ g ∷ [])
                  (offer lower_case (seen ++ g ∷ []) queue (parents_of g parents)) res
                  (ground arith) (seen-AreSound g seen hs hg)
                  (queue-AreSound g (seen ++ g ∷ []) queue (tail-AreSound g queue hq) hg)
          ]
