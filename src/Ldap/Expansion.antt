-- ===== src/Ldap/Expansion.antt =====
-- The loop of `expandGroups` of apps/api/src/ldap/mapping.ts and the groups that it meets.
use justmail.Prelude.{
  ℕ, zero, suc, ◌+◌, ◌≡◌, ◌↔◌, Bool, true, ◌||◌, List, [], ◌∷◌, ◌++◌, some, Text, arith, length,
  map, text_eq, text_eq_iff, Bool-cases, inl, inr, subst, sym,
}
use justmail.Ldap.{contains, parents_of, normalize_dn, offer, expand, expand_groups}
use justmail.Ldap.Closure.{
  contains-append, contains-offer, expand_total, expand-AreSound, weight, Belongs, as_member,
  as_parent,
}

module _ (lower_case : Text → Text) (parents : List (Text × List Text)) where
  abbrev above : Text → List Text
  above g = map (normalize_dn lower_case) (parents_of g parents)

  abbrev met : Text → List Text → List Text → Bool
  met x seen queue = contains x seen || contains x queue

  -- Every parent of a visited group is visited or waits.
  abbrev IsClosed : List Text → List Text → Type 0
  IsClosed seen queue =
      (g p : Text) → contains g seen ≡ true → contains p (above g) ≡ true → met p seen queue ≡ true

  -- Nothing that was met is lost.
  abbrev Keeps : List Text → List Text → List Text → Type 0
  Keeps seen queue res = (x : Text) → met x seen queue ≡ true → contains x res ≡ true

  -- The queue after a visit of `g`.
  abbrev next : Text → List Text → List Text → List Text
  next g seen queue = offer lower_case (seen ++ g ∷ []) queue (parents_of g parents)

  met_skip :
      (x g : Text) (seen queue : List Text)
      → contains g seen ≡ true
      → met x seen (g ∷ queue) ≡ met x seen queue
  met_skip x g seen queue h = elim (Bool-cases (text_eq g x)) [
    | inl same ↦ rw (sym ((text_eq_iff g x).0 same)) (ground arith)
    | inr other ↦ ground arith
  ]

  met_visit :
      (x g : Text) (seen queue : List Text)
      → met x (seen ++ g ∷ []) (next g seen queue)
        ≡ (met x seen (g ∷ queue) || contains x (above g))
  met_visit x g seen queue = ground (
    arith,
    contains-append x seen (g ∷ []),
    contains-offer lower_case x (seen ++ g ∷ []) queue (parents_of g parents),
  )

  visit-IsClosed :
      (g : Text) (seen queue : List Text)
      → IsClosed seen (g ∷ queue)
      → IsClosed (seen ++ g ∷ []) (next g seen queue)
  visit-IsClosed g seen queue h k p hk hp = elim (Bool-cases (contains k seen)) [
    | inl before ↦ ground (arith, met_visit p g seen queue, h k p before hp)
    | inr new ↦
        let same : g ≡ k = (text_eq_iff g k).0 (ground (arith, contains-append k seen (g ∷ []))) in
        let hp' : contains p (above g) ≡ true = rw same hp in
        ground (arith, met_visit p g seen queue)
  ]

  stop :
      (seen res : List Text) → seen ≡ res → IsClosed seen [] → Keeps seen [] res × IsClosed res []
  stop seen res same h =
      subst (λ r. Keeps seen [] r × IsClosed r []) {x = seen} same ((λ x hx. ground arith), h)

  pub expand-Keeps :
      (fuel : ℕ) (seen queue res : List Text)
      → expand lower_case parents fuel seen queue ≡ some res
      → IsClosed seen queue
      → Keeps seen queue res × IsClosed res []
  unfolding expand
  expand-Keeps zero seen [] res e h = stop seen res (ground arith) h
  expand-Keeps zero seen (g ∷ queue) res e h = absurd (ground arith)
  expand-Keeps (suc fuel) seen [] res e h = stop seen res (ground arith) h
  expand-Keeps (suc fuel) seen (g ∷ queue) res e h = elim (Bool-cases (contains g seen)) [
    | inl old ↦
        let (keeps, closed) =
          expand-Keeps fuel seen queue res (ground arith)
            (λ a b ha hb. ground (arith, h a b ha hb, met_skip b g seen queue old)) in
        (λ x hx. keeps x (ground (arith, met_skip x g seen queue old)), closed)
    | inr new ↦
        let (keeps, closed) =
          expand-Keeps fuel (seen ++ g ∷ []) (next g seen queue) res (ground arith)
            (visit-IsClosed g seen queue h) in
        (λ x hx. keeps x (ground (arith, met_visit x g seen queue)), closed)
  ]

  -- The steps that are always enough: one for each direct group and one for each parent of a group.
  abbrev pub steps : List Text → ℕ
  steps direct = length (map (normalize_dn lower_case) direct) + weight [] parents

  reached :
      (direct res : List Text)
      → Keeps [] (map (normalize_dn lower_case) direct) res
      → IsClosed res []
      → (g : Text) → Belongs lower_case parents direct g
      → contains g res ≡ true
  reached direct res keeps closed g (as_member h) = keeps g h
  reached direct res keeps closed g (as_parent {g = k} before h) =
      ground (arith, closed k g (reached direct res keeps closed k before) h)

  -- With one step for each direct group and one for each entry of a list of parents the expansion
  -- ends, also on a cyclic graph of groups, and its result holds exactly the groups that are direct
  -- ones, under their normal names, or a parent of a group that it holds.
  pub expand_groups_iff :
      (direct : List Text)
      → (res : List Text) × (expand_groups lower_case (steps direct) direct parents ≡ some res)
        × ((g : Text) → (contains g res ≡ true) ↔ Belongs lower_case parents direct g)
  unfolding expand_groups
  expand_groups_iff direct =
      let start = map (normalize_dn lower_case) direct in
      let (res, e) = expand_total lower_case parents (steps direct) [] start (omega arith) in
      let (keeps, closed) = expand-Keeps (steps direct) [] start res e (λ g p hg hp. cc) in
      (
        res,
        e,
        λ g. (
          expand-AreSound lower_case parents direct (steps direct) [] start res e
              (λ x hx. absurd (cc)) (λ x hx. as_member hx) g,
          reached direct res keeps closed g,
        ),
      )
