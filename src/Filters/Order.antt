-- ===== src/Filters/Order.antt =====
-- The order of the filters of apps/api/src/webmail/sieve.service.ts, and what a locked mailbox leaves.
use justmail.Prelude.{
  ℕ, suc, ◌≡◌, ◌≤◌, ◌<◌, List, [], ◌∷◌, ◌++◌, none, Text, arith, refl, ◌∙◌, append_assoc, ◌==◌, inl,
  inr, Option-cases, max, All, Bool, ok, err, forbidden, Option,
}
use justmail.Prelude.Table.{select, first?}
use justmail.Store.{FilterRow, Db, Principal}
use justmail.Orgs.{require_role, find_role}
use justmail.Filters.{
  Server, insert_by, sort_into, in_mailbox, load_rules, next_priority, SieveRuleRequest, new_row,
  with_rule, resolve_mailbox, create_rule, sync,
}

select-append :
    (p : FilterRow → Bool) (xs ys : List FilterRow)
    → select p (xs ++ ys) ≡ select p xs ++ select p ys
select-append p [] ys = refl
select-append p (x ∷ xs) ys = ground (arith, select-append p xs ys)

sort_into-append :
    (sorted xs : List FilterRow) (y : FilterRow)
    → sort_into sorted (xs ++ y ∷ []) ≡ insert_by y (sort_into sorted xs)
sort_into-append sorted [] y = refl
sort_into-append sorted (x ∷ xs) y = sort_into-append (insert_by x sorted) xs y

abbrev Below : ℕ → FilterRow → Type 0
Below n f = f.priority < n

All-Below-suc : (n m : ℕ) (fs : List FilterRow) → n ≤ m → All (Below n) fs → All (Below m) fs
All-Below-suc n m [] le h = tt
All-Below-suc n m (f ∷ fs) le (hf, h) = (omega arith, All-Below-suc n m fs le h)

next_priority-Below : (fs : List FilterRow) → All (Below (next_priority fs)) fs
next_priority-Below [] = tt
next_priority-Below (f ∷ fs) = (
  omega arith,
  All-Below-suc (next_priority fs) (max (suc f.priority) (next_priority fs)) fs (omega arith)
      (next_priority-Below fs),
)

insert_by-Below :
    (n : ℕ) (x : FilterRow) (fs : List FilterRow)
    → Below n x
    → All (Below n) fs
    → All (Below n) (insert_by x fs)
insert_by-Below n x [] hx h = (hx, tt)
insert_by-Below n x (f ∷ fs) hx (hf, h) = ground (arith, insert_by-Below n x fs hx h)

sort_into-Below :
    (n : ℕ) (sorted fs : List FilterRow)
    → All (Below n) sorted
    → All (Below n) fs
    → All (Below n) (sort_into sorted fs)
sort_into-Below n sorted [] hs h = hs
sort_into-Below n sorted (f ∷ fs) hs (hf, h) =
    sort_into-Below n (insert_by f sorted) fs (insert_by-Below n f sorted hf hs) h

insert_last :
    (y : FilterRow) (fs : List FilterRow)
    → All (Below y.priority) fs
    → insert_by y fs ≡ fs ++ y ∷ []
insert_last y [] h = refl
insert_last y (f ∷ fs) (hf, h) = ground (arith, insert_last y fs h)

-- A new filter is compiled and listed behind all others of its mailbox, whose order stays.
pub load_rules-with_rule :
    (id org mailbox : ℕ) (input : SieveRuleRequest) (db : Db)
    → load_rules mailbox (with_rule id org mailbox input db)
      ≡ load_rules mailbox db ++ new_row id org mailbox input db ∷ []
unfolding load_rules
load_rules-with_rule id org mailbox input db =
    let rows = select (in_mailbox mailbox) db.filters in
    let row = new_row id org mailbox input db in
    let split : select (in_mailbox mailbox) (db.filters ++ row ∷ []) ≡ rows ++ row ∷ [] =
      ground (arith, select-append (in_mailbox mailbox) db.filters (row ∷ [])) in
    rw split (
      sort_into-append [] rows row
      ∙ insert_last row (sort_into [] rows)
          (sort_into-Below (next_priority rows) [] rows tt (next_priority-Below rows)))

-- The check of a request reads no filter.
resolve_mailbox-with_rule :
    (now : ℕ) (p : Principal) (org mailbox id : ℕ) (input : SieveRuleRequest) (db : Db)
    → resolve_mailbox now p org mailbox (with_rule id org mailbox input db)
      ≡ resolve_mailbox now p org mailbox db
unfolding resolve_mailbox require_role find_role
resolve_mailbox-with_rule now p org mailbox id input db =
    elim (Option-cases (first? (λ m. m.id == mailbox) db.mailboxes)) [
      | inl missing ↦ rw missing refl
      | inr (box, there) ↦ rw there refl
    ]

-- While a mailbox is locked, a request to create a filter that passes the checks is refused, but the
-- filter is stored, behind all that the mailbox has; asking again is refused again and stores it a
-- second time, behind the first.
pub create_rule_locked :
    (push : Text → Text → Text → Server → Server × Option Text) (now id now' id' : ℕ)
    (p : Principal) (org mailbox : ℕ) (input : SieveRuleRequest) (db : Db) (server : Server)
    (address : Text)
    → resolve_mailbox now p org mailbox db ≡ ok address
    → resolve_mailbox now' p org mailbox db ≡ ok address
    → let first = create_rule push none now id p org mailbox input db server in
      let again = create_rule push none now' id' p org mailbox input first.db first.server in
      (first.answer ≡ err (forbidden "Mailbox locked"))
      × (again.answer ≡ err (forbidden "Mailbox locked"))
      × (f : FilterRow) × (g : FilterRow) × (load_rules mailbox first.db
          ≡ load_rules mailbox db ++ f ∷ [])
      × (load_rules mailbox again.db ≡ load_rules mailbox db ++ f ∷ g ∷ [])
      × (f.rule ≡ input.rule)
      × (f.enabled ≡ input.enabled)
      × (g.rule ≡ input.rule)
      × (g.enabled ≡ input.enabled)
unfolding create_rule sync
create_rule_locked push now id now' id' p org mailbox input db server address found later =
    let db1 = with_rule id org mailbox input db in
    let passes = resolve_mailbox-with_rule now' p org mailbox id input db ∙ later in
    let one = load_rules-with_rule id org mailbox input db in
    let two = load_rules-with_rule id' org mailbox input db1 in
    let f = new_row id org mailbox input db in
    let g = new_row id' org mailbox input db1 in
    (
      rw found refl,
      rw found (rw passes refl),
      f,
      g,
      rw found one,
      rw found (
          rw passes (
            two ∙ (λ i. one i ++ g ∷ []) ∙ append_assoc (load_rules mailbox db) (f ∷ []) (g ∷ []))),
      refl,
      refl,
      refl,
      refl,
    )
