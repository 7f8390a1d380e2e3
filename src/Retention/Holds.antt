-- ===== src/Retention/Holds.antt =====
-- What the holds of apps/api/src/retention/legal-hold.service.ts extend to.
use justmail.Prelude.{
  ℕ, ◌+◌, ◌≡◌, ◌≤◌, Bool, true, false, ◌&&◌, ◌||◌, List, [], ◌∷◌, ◌++◌, Option, none, some, Text,
  ◌==◌, ok, refl, arith, >>=-eq-ok, Bool-cases, Option-cases, inl, inr, if◌then◌else◌,
}
use justmail.Prelude.Table.{exclude, has-exclude, first?, select, modify, has, count}
use justmail.Store.{Role, admin, HoldRow, Db, Principal}
use justmail.Retention.{
  new_hold, is_active, active_at, same_scope, active_id, released, create, release, Held, held_of,
  held_mailbox_ids, has_id,
}
use justmail.Mailboxes.{holds_box, remove, get}
use justmail.Webhooks.{emit}
use justmail.Orgs.{require_role, find_role}

-- The hold extends to the mailbox.
abbrev pub covers : ℕ → HoldRow → Bool
covers id h = elim h.mailbox_id [ none ↦ true | some m ↦ m == id ]

-- Whether an active hold of the organization extends to the mailbox.
abbrev pub is_held : ℕ → ℕ → Db → Bool
is_held org id db = has (λ h. is_active org h && covers id h) db.holds

has_id-append : (id x : ℕ) (xs : List ℕ) → has_id id (xs ++ x ∷ []) ≡ (has_id id xs || x == id)
has_id-append id x [] = ground arith
has_id-append id x (y ∷ ys) = ground (arith, has_id-append id x ys)

-- What the computed pair says of one mailbox.
abbrev pub says : ℕ → Held → Bool
says id h = h.org_wide || has_id id h.ids

says-held_of :
    (id : ℕ) (acc : Held) (hs : List HoldRow)
    → says id (held_of acc hs) ≡ (says id acc || has (covers id) hs)
unfolding held_of
says-held_of id acc [] = ground arith
says-held_of id acc (h ∷ hs) = elim (Option-cases h.mailbox_id) [
  | inl all ↦ ground (arith, says-held_of id (record acc { org_wide = true }) hs)
  | inr (m, one) ↦ ground (
    arith,
    says-held_of id (record acc { ids = acc.ids ++ m ∷ [] }) hs,
    has_id-append id m acc.ids,
  )
]

has-select :
    (p q : HoldRow → Bool) (hs : List HoldRow) → has q (select p hs) ≡ has (λ h. p h && q h) hs
has-select p q [] = refl
has-select p q (h ∷ hs) = ground (arith, has-select p q hs)

-- `heldMailboxIds` finds a mailbox held, through its two answers, exactly when an active hold of the
-- organization extends to it.
pub held_mailbox_ids_iff :
    (org id : ℕ) (db : Db) → says id (held_mailbox_ids org db) ≡ is_held org id db
unfolding held_mailbox_ids
held_mailbox_ids_iff org id db = ground (
  arith,
  says-held_of id (record { org_wide = false; ids = [] }) (select (is_active org) db.holds),
  has-select (is_active org) (covers id) db.holds,
)

-- At most one active hold for each scope.
abbrev pub AreSingle : Db → Type 0
AreSingle db = (org : ℕ) (scope : Option ℕ) → count (active_at org scope) db.holds ≤ 1

count-has : (p : HoldRow → Bool) (hs : List HoldRow) → has p hs ≡ false → count p hs ≡ 0
count-has p [] h = refl
count-has p (x ∷ xs) h = ground (arith, count-has p xs)

same_scope_eq : (a b : Option ℕ) → same_scope a b ≡ true → a ≡ b
same_scope_eq none none h = refl
same_scope_eq (some a) (some b) h = ground arith
same_scope_eq none (some b) h = ground arith
same_scope_eq (some a) none h = ground arith

has-append :
    (p : HoldRow → Bool) (x : HoldRow) (hs : List HoldRow)
    → has p (hs ++ x ∷ []) ≡ (has p hs || p x)
has-append p x [] = ground arith
has-append p x (h ∷ hs) = ground (arith, has-append p x hs)

-- What a creation that succeeded did.
created :
    (now id : ℕ) (p : Principal) (org : ℕ) (scope : Option ℕ) (reason : Text) (db db' : Db)
    (row : HoldRow)
    → create now id p org scope reason db ≡ ok (row, db')
    → (row ≡ new_hold now id org p.user_id scope reason)
      × (db'.holds ≡ db.holds ++ row ∷ [])
      × (has (active_at org scope) db.holds ≡ false)
unfolding create
created now id p org scope reason db db' row h = (ground arith, ground arith, ground arith)

count-snoc :
    (p : HoldRow → Bool) (x : HoldRow) (hs : List HoldRow)
    → count p (hs ++ x ∷ []) ≡ count p hs + (if p x then 1 else 0)
count-snoc p x [] = ground arith
count-snoc p x (h ∷ hs) = ground (arith, count-snoc p x hs)

same_scope_refl : (a : Option ℕ) → same_scope a a ≡ true
same_scope_refl none = refl
same_scope_refl (some a) = ground arith

count_released :
    (now actor org id o : ℕ) (s : Option ℕ) (hs : List HoldRow)
    → count (active_at o s) (modify (active_id org id) (released now actor) hs)
      ≤ count (active_at o s) hs
count_released now actor org id o s [] = omega arith
count_released now actor org id o s (h ∷ hs) =
    ground (arith, count_released now actor org id o s hs)

none_left :
    (now actor org id : ℕ) (hs : List HoldRow)
    → has (active_id org id) (modify (active_id org id) (released now actor) hs) ≡ false
none_left now actor org id [] = refl
none_left now actor org id (h ∷ hs) = ground (arith, none_left now actor org id hs)

-- From a table with at most one active hold for each scope, a hold is created only where its scope
-- has none, so that each scope keeps at most one and this one has one; every mailbox that the new
-- hold extends to is held afterwards, and every mailbox that was held still is.
pub create_lem :
    (now id : ℕ) (p : Principal) (org : ℕ) (scope : Option ℕ) (reason : Text) (db db' : Db)
    (row : HoldRow)
    → AreSingle db
    → create now id p org scope reason db ≡ ok (row, db')
    → AreSingle db'
      × (count (active_at org scope) db'.holds ≡ 1)
      × ((box : ℕ) → covers box row ≡ true → is_held org box db' ≡ true)
      × ((other box : ℕ) → is_held other box db ≡ true → is_held other box db' ≡ true)
create_lem now id p org scope reason db db' row single h =
    let (is_new, rows, free) = created now id p org scope reason db db' row h in
    (
      λ o s. rw rows (elim (Bool-cases (active_at o s row)) [
        | inl at ↦ ground (
          arith,
          count-snoc (active_at o s) row db.holds,
          count-has (active_at org scope) db.holds free,
          same_scope_eq scope s (ground arith),
        )
        | inr off ↦ ground (arith, count-snoc (active_at o s) row db.holds, single o s)
      ]),
      rw rows (
          ground (
            arith,
            count-snoc (active_at org scope) row db.holds,
            count-has (active_at org scope) db.holds free,
            same_scope_refl scope,
          )),
      λ box c.
          rw rows (ground (arith, has-append (λ x. is_active org x && covers box x) row db.holds)),
      λ other box c.
          rw rows
            (ground (arith, has-append (λ x. is_active other x && covers box x) row db.holds)),
    )

-- From a table with at most one active hold for each scope, a release takes an active hold, keeps
-- that rule, and leaves no active hold of the organization under that id.
pub release_lem :
    (now : ℕ) (p : Principal) (org id : ℕ) (db db' : Db)
    → AreSingle db
    → release now p org id db ≡ ok db'
    → AreSingle db'
      × (has (active_id org id) db.holds ≡ true)
      × (has (active_id org id) db'.holds ≡ false)
unfolding release
release_lem now p org id db db' single h = (
  λ o s. ground (arith, count_released now p.user_id org id o s db.holds, single o s),
  ground arith,
  ground (arith, none_left now p.user_id org id db.holds),
)

require_role_held :
    (now org user : ℕ) (min : Role) (hs : List HoldRow) (db : Db)
    → require_role now org user min (record db { holds = hs }) ≡ require_role now org user min db
unfolding require_role find_role
require_role_held now org user min hs db = refl

get_held :
    (now org id user : ℕ) (hs : List HoldRow) (db : Db)
    → get now org id user (record db { holds = hs }) ≡ get now org id user db
unfolding get require_role find_role
get_held now org id user hs db = elim (Option-cases (first? (λ m. m.id == id) db.mailboxes)) [
  | inl missing ↦ ground arith
  | inr (m, found) ↦ ground arith
]

removed_holds :
    (fresh : ℕ → ℕ) (now : ℕ) (p : Principal) (org id : ℕ) (db db' : Db)
    → remove fresh now p org id db ≡ ok db'
    → db'.holds ≡ exclude (holds_box id) db.holds
unfolding remove emit
removed_holds fresh now p org id db db' h = ground arith

-- When the deletion of a mailbox succeeds, it succeeds with any other table of holds as well, so
-- no hold is asked for, and no hold of that mailbox is left afterwards.
pub remove_held :
    (fresh : ℕ → ℕ) (now : ℕ) (p : Principal) (org id : ℕ) (db db' : Db)
    → remove fresh now p org id db ≡ ok db'
    → ((hs : List HoldRow)
        → (out : Db) × (remove fresh now p org id (record db { holds = hs }) ≡ ok out))
      × (has (holds_box id) db'.holds ≡ false)
unfolding remove
remove_held fresh now p org id db db' h =
    let (role, h1, e) = >>=-eq-ok (require_role now org p.user_id admin db) (λ r. _) h in
    let (box, h2, e') = >>=-eq-ok (get now org id p.user_id db) (λ b. _) h1 in
    (
      λ hs.
          rw (require_role_held now org p.user_id admin hs db)
            (rw e (rw (get_held now org id p.user_id hs db) (rw e' (_, refl)))),
      rw (removed_holds fresh now p org id db db' h) (has-exclude (holds_box id) db.holds),
    )
