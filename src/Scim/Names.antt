-- ===== src/Scim/Names.antt =====
-- The groups that an account is in, before and after `createGroup` of
-- apps/api/src/scim/scim.service.ts.
use justmail.Prelude.{
  ℕ, ◌≡◌, ◌⊎◌, Bool, true, false, ◌&&◌, ◌||◌, List, [], ◌∷◌, ◌++◌, Option, none, some, Text,
  text_eq, arith, ◌==◌, inl, inr, Bool-cases, Option-cases, refl, ◌∙◌,
}
use justmail.Prelude.Table.{select, exclude, first?, has}
use justmail.Store.{Db, ScimUserRow, ScimGroupRow, ScimMemberRow}
use justmail.Scim.{ScimContext}
use justmail.Scim.Users.{scim_user_at}
use justmail.Scim.Rows.{
  and_name, in_scim_group, row_at, insert_row, with_row, add_row, add_members, group_names,
}

-- Whether a resource is one of those that a request lists.
abbrev pub lists : ℕ → List (Option ℕ) → Bool
lists sid [] = false
lists sid (none ∷ sids) = lists sid sids
lists sid (some s ∷ sids) = s == sid || lists sid sids

abbrev pub shows : Text → Option ScimGroupRow → Bool
shows x none = false
shows x (some g) = text_eq g.display_name x

abbrev pub group_of : ℕ → List ScimGroupRow → Option ScimGroupRow
group_of id gs = first? (λ g. g.id == id) gs

has-and_name :
    (x : Text) (found : Option ScimGroupRow) (names : List Text)
    → has (λ y. text_eq y x) (and_name found names)
      ≡ (shows x found || has (λ y. text_eq y x) names)
has-and_name x none names = refl
has-and_name x (some g) names = refl

-- The rows of the join have a name where a member row has a group of that name.
pub has-group_names :
    (x : Text) (gs : List ScimGroupRow) (q : ScimMemberRow → Bool) (ms : List ScimMemberRow)
    → has (λ y. text_eq y x) (group_names gs (select q ms))
      ≡ has (λ m. q m && shows x (group_of m.group_id gs)) ms
unfolding group_names
has-group_names x gs q [] = refl
has-group_names x gs q (m ∷ ms) = elim (Bool-cases (q m)) [
  | inr out ↦ rw out (has-group_names x gs q ms)
  | inl joins ↦ rw joins (
      has-and_name x (group_of m.group_id gs) (group_names gs (select q ms))
      ∙ (λ i. shows x (group_of m.group_id gs) || has-group_names x gs q ms i))
]

pub group_of-new :
    (gs : List ScimGroupRow) (g : ScimGroupRow)
    → has (λ k. k.id == g.id) gs ≡ false
    → (group_of g.id gs ≡ none) × (group_of g.id (gs ++ g ∷ []) ≡ some g)
group_of-new [] g h = ground arith
group_of-new (k ∷ gs) g h = ground (arith, group_of-new gs g)

group_of-other :
    (id : ℕ) (gs : List ScimGroupRow) (g : ScimGroupRow)
    → (id == g.id) ≡ false
    → group_of id (gs ++ g ∷ []) ≡ group_of id gs
group_of-other id [] g h = ground arith
group_of-other id (k ∷ gs) g h = ground (arith, group_of-other id gs g)

group_of-none :
    (a id : ℕ) (gs : List ScimGroupRow)
    → a ≡ id
    → has (λ k. k.id == id) gs ≡ false
    → group_of a gs ≡ none
group_of-none a id [] e h = refl
group_of-none a id (k ∷ gs) e h = ground (arith, group_of-none a id gs)

-- A new group, emptied, changes none of the rows that show a name.
pub has-new_group :
    (x : Text) (q : ScimMemberRow → Bool) (gs : List ScimGroupRow) (g : ScimGroupRow)
    (ms : List ScimMemberRow)
    → has (λ k. k.id == g.id) gs ≡ false
    → has
        (λ m. q m && shows x (group_of m.group_id (gs ++ g ∷ [])))
        (exclude (in_scim_group g.id) ms)
      ≡ has (λ m. q m && shows x (group_of m.group_id gs)) ms
has-new_group x q gs g [] h = refl
has-new_group x q gs g (m ∷ ms) h = elim (Bool-cases (m.group_id == g.id)) [
  | inl stale ↦
      let none_before : group_of m.group_id gs ≡ none =
        group_of-none m.group_id g.id gs (ground arith) h in
      rw stale (rw none_before (ground (arith, has-new_group x q gs g ms h)))
  | inr old ↦
      rw old (rw (group_of-other m.group_id gs g old) (rw (has-new_group x q gs g ms h) refl))
]

pub add_row-scim_users :
    (found : Option ScimUserRow) (group sid : ℕ) (db : Db)
    → (add_row found group sid db).scim_users ≡ db.scim_users
add_row-scim_users none group sid db = refl
add_row-scim_users (some s) group sid db = refl

pub add_members-scim_groups :
    (ctx : ScimContext) (group : ℕ) (sids : List (Option ℕ)) (db : Db)
    → (add_members ctx group sids db).1.scim_groups ≡ db.scim_groups
unfolding add_members
add_members-scim_groups ctx group [] db = refl
add_members-scim_groups ctx group (none ∷ sids) db = add_members-scim_groups ctx group sids db
add_members-scim_groups ctx group (some t ∷ sids) db =
    elim (Option-cases (first? (scim_user_at ctx.org_id t) db.scim_users)) [
      | inl missing ↦ rw missing (add_members-scim_groups ctx group sids db)
      | inr (u, found) ↦ rw found (add_members-scim_groups ctx group sids (with_row group t db))
    ]

-- A test on member rows, by their two ids.
module _ (R : ℕ → ℕ → Bool) where
  abbrev pub passes : ScimMemberRow → Bool
  passes m = R m.group_id m.scim_user_id

  has-append :
      (ms : List ScimMemberRow) (r : ScimMemberRow)
      → has passes (ms ++ r ∷ []) ≡ (has passes ms || passes r)
  has-append [] r = ground arith
  has-append (m ∷ ms) r = ground (arith, has-append ms r)

  has-row_at :
      (group sid : ℕ) (ms : List ScimMemberRow)
      → has (row_at group sid) ms ≡ true
      → R group sid ≡ true
      → has passes ms ≡ true
  has-row_at group sid [] h k = absurd (ground arith)
  has-row_at group sid (m ∷ ms) h k = elim (Bool-cases (row_at group sid m)) [
    | inl here ↦
        let same : m.group_id ≡ group = ground arith in
        let one : m.scim_user_id ≡ sid = ground arith in
        let met : R m.group_id m.scim_user_id ≡ true = (λ i. R (same i) (one i)) ∙ k in rw met refl
    | inr other ↦ ground (arith, has-row_at group sid ms)
  ]

  insert_row-in :
      (group sid : ℕ) (ms : List ScimMemberRow)
      → R group sid ≡ true
      → has passes (insert_row group sid ms) ≡ true
  insert_row-in group sid ms k = elim (Bool-cases (has (row_at group sid) ms)) [
    | inl there ↦ rw there (has-row_at group sid ms there k)
    | inr absent ↦
        rw absent (ground (arith, has-append ms (record { group_id = group; scim_user_id = sid })))
  ]

  insert_row-keeps :
      (group sid : ℕ) (ms : List ScimMemberRow)
      → has passes ms ≡ true
      → has passes (insert_row group sid ms) ≡ true
  insert_row-keeps group sid ms h =
      ground (arith, has-append ms (record { group_id = group; scim_user_id = sid }))

  insert_row-from :
      (group sid : ℕ) (ms : List ScimMemberRow)
      → has passes (insert_row group sid ms) ≡ true
      → (has passes ms ≡ true) ⊎ (R group sid ≡ true)
  insert_row-from group sid ms h =
      ground (arith, has-append ms (record { group_id = group; scim_user_id = sid }))

  pub add_members-keeps :
      (ctx : ScimContext) (group : ℕ) (sids : List (Option ℕ)) (db : Db)
      → has passes db.scim_members ≡ true
      → has passes (add_members ctx group sids db).1.scim_members ≡ true
  unfolding add_members
  add_members-keeps ctx group [] db h = h
  add_members-keeps ctx group (none ∷ sids) db h = add_members-keeps ctx group sids db h
  add_members-keeps ctx group (some t ∷ sids) db h =
      elim (Option-cases (first? (scim_user_at ctx.org_id t) db.scim_users)) [
        | inl missing ↦ rw missing (add_members-keeps ctx group sids db h)
        | inr (u, found) ↦ rw found (
            add_members-keeps ctx group sids (with_row group t db)
              (insert_row-keeps group t db.scim_members h))
      ]

  pub add_members-from :
      (ctx : ScimContext) (group : ℕ) (sids : List (Option ℕ)) (db : Db)
      → has passes (add_members ctx group sids db).1.scim_members ≡ true
      → (has passes db.scim_members ≡ true) ⊎ ((t : ℕ) × (R group t ≡ true))
  unfolding add_members
  add_members-from ctx group [] db h = inl h
  add_members-from ctx group (none ∷ sids) db h = add_members-from ctx group sids db h
  add_members-from ctx group (some t ∷ sids) db h =
      let at = first? (scim_user_at ctx.org_id t) db.scim_users in
      elim (add_members-from ctx group sids (add_row at group t db) h) [
        | inr later ↦ inr later
        | inl before ↦ added at group t db before
      ]
    where
      added :
          (at : Option ScimUserRow) (group t : ℕ) (db : Db)
          → has passes (add_row at group t db).scim_members ≡ true
          → (has passes db.scim_members ≡ true) ⊎ ((t : ℕ) × (R group t ≡ true))
      added none group t db h = inl h
      added (some u) group t db h = elim (insert_row-from group t db.scim_members h) [
        | inl before ↦ inl before
        | inr this ↦ inr (t, this)
      ]

  pub add_members-in :
      (ctx : ScimContext) (group sid : ℕ) (sids : List (Option ℕ)) (db : Db) (s : ScimUserRow)
      → lists sid sids ≡ true
      → first? (scim_user_at ctx.org_id sid) db.scim_users ≡ some s
      → R group sid ≡ true
      → has passes (add_members ctx group sids db).1.scim_members ≡ true
  unfolding add_members
  add_members-in ctx group sid [] db s h found k = absurd (ground arith)
  add_members-in ctx group sid (none ∷ sids) db s h found k =
      add_members-in ctx group sid sids db s h found k
  add_members-in ctx group sid (some t ∷ sids) db s h found k = elim (Bool-cases (t == sid)) [
    | inl same ↦
        let is : t ≡ sid = ground arith in
        let there : first? (scim_user_at ctx.org_id t) db.scim_users ≡ some s =
          (λ i. first? (scim_user_at ctx.org_id (is i)) db.scim_users) ∙ found in
        rw there (
          add_members-keeps ctx group sids (with_row group t db)
            (insert_row-in group t db.scim_members ((λ i. R group (is i)) ∙ k)))
    | inr other ↦
        let at = first? (scim_user_at ctx.org_id t) db.scim_users in
        add_members-in ctx group sid sids (add_row at group t db) s (ground arith)
          (rw (add_row-scim_users at group t db) found) k
  ]
