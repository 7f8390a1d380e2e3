-- ===== src/Groups/Sets.antt =====
-- The members of a group of apps/api/src/groups/groups.service.ts as a set of addresses: what the
-- rows of `mail_group_members` stand for.
use justmail.Prelude.{
  ℕ, ◌≡◌, Bool, true, false, not, ◌&&◌, ◌||◌, List, [], ◌∷◌, ◌++◌, map, Text, text_eq, text_eq_iff,
  text_eq_refl, arith, refl, ◌∙◌, ap, sym, ◌==◌, if◌then◌else◌, inl, inr, ==_iff, Bool-cases, ok,
}
use justmail.Prelude.Table.{select, exclude, has}
use justmail.Prelude.Texts.{lower, to_lower, trim}
use justmail.Prelude.Keys.{has-append}
use justmail.Store.{GroupMemberRow, Db, Principal}
use justmail.Groups.{
  MailGroupDetail, in_group, to_set, is_some_text, normal, dedupe, member_at, insert_member,
  insert_members, CreateMailGroup, create, UpdateMailGroup, update, set_members, remove,
}

-- The groups' members: of each group, whether it has an address, given in lower case.
abbrev pub Members : Type 0
Members = ℕ → Text → Bool

-- What the tables stand for.
abbrev pub members_of : Db → Members
members_of db id lowered = has (member_at id lowered) db.group_members

-- The addresses that a request names: neither white space around them nor upper case counts, and
-- empty ones are left out.
abbrev pub named : List Text → Text → Bool
named addrs lowered = not (text_eq lowered []) && has (text_eq lowered) (map normal addrs)

-- What a request asks of the members.
pub data Op : Type 0 where
  keep : Op
  add : ℕ → (Text → Bool) → Op
  replace : ℕ → (Text → Bool) → Op

abbrev pub run : Op → Members → Members
run keep m id a = m id a
run (add id set) m id' a = m id' a || id == id' && set a
run (replace id set) m id' a = if id == id' then set a else m id' a

lower_idem : (c : ℕ) → lower (lower c) ≡ lower c
lower_idem c = ground arith

to_lower_idem : (s : Text) → to_lower (to_lower s) ≡ to_lower s
to_lower_idem [] = refl
to_lower_idem (c ∷ s) = rw (lower_idem c) (rw (to_lower_idem s) refl)

present :
    (id id' : ℕ) (a lowered : Text) (rows : List GroupMemberRow)
    → has (member_at id (to_lower a)) rows ≡ true
    → has (member_at id' lowered) rows
      ≡ (has (member_at id' lowered) rows || id == id' && text_eq (to_lower a) lowered)
present id id' a lowered rows h = elim (Bool-cases (text_eq (to_lower a) lowered)) [
  | inl same ↦
      let moved = ap (λ s. has (member_at id s) rows) ((text_eq_iff (to_lower a) lowered).0 same) in
      elim (Bool-cases (id == id')) [
        | inl one ↦
            let moved' = ap (λ i. has (member_at i lowered) rows) ((==_iff id id').0 one) in
            ground (arith, moved, moved')
        | inr other ↦ ground arith
      ]
  | inr other ↦ ground arith
]

-- One insert: a row that is there already is not written again.
insert_one :
    (id id' : ℕ) (a lowered : Text) (rows : List GroupMemberRow)
    → has (member_at id' lowered) (insert_member id a rows)
      ≡ (has (member_at id' lowered) rows || id == id' && text_eq (to_lower a) lowered)
insert_one id id' a lowered rows = elim (Bool-cases (has (member_at id (to_lower a)) rows)) [
  | inl here ↦ ground (arith, present id id' a lowered rows here)
  | inr absent ↦
      let row : GroupMemberRow = record { group_id = id; address = a } in
      ground (arith, has-append (member_at id' lowered) rows (row ∷ []))
]

insert_all :
    (id id' : ℕ) (xs : List Text) (lowered : Text) (rows : List GroupMemberRow)
    → has (member_at id' lowered) (insert_members id xs rows) ≡ (
        has (member_at id' lowered) rows || id == id' && has (λ x. text_eq (to_lower x) lowered) xs)
unfolding insert_members
insert_all id id' [] lowered rows = ground arith
insert_all id id' (x ∷ xs) lowered rows = ground (
  arith,
  insert_all id id' xs lowered (insert_member id (to_lower x) rows),
  insert_one id id' (to_lower x) lowered rows,
  to_lower_idem x,
)

module _ (q : Text → Bool) where
  -- A text that is in the list adds nothing.
  has-seen :
      (x : Text) (acc : List Text) → has (text_eq x) acc ≡ true → (has q acc || q x) ≡ has q acc
  has-seen x [] h = absurd (ground arith)
  has-seen x (y ∷ acc) h = elim (Bool-cases (text_eq x y)) [
    | inl same ↦ let moved = ap q ((text_eq_iff x y).0 same) in ground (arith, moved)
    | inr other ↦ ground (arith, other, has-seen x acc)
  ]

  has-append_one : (acc : List Text) (x : Text) → has q (acc ++ x ∷ []) ≡ (has q acc || q x)
  has-append_one [] x = ground arith
  has-append_one (y ∷ acc) x = ground (arith, has-append_one acc x)

  -- The set has what the list has.
  has-to_set : (acc xs : List Text) → has q (to_set acc xs) ≡ (has q acc || has q xs)
  has-to_set acc [] = ground arith
  has-to_set acc (x ∷ xs) = elim (Bool-cases (has (text_eq x) acc)) [
    | inl seen ↦ ground (arith, seen, has-seen x acc seen, has-to_set acc xs)
    | inr new ↦ ground (arith, new, has-append_one acc x, has-to_set (acc ++ x ∷ []) xs)
  ]

text_eq_sym : (s t : Text) → text_eq s t ≡ text_eq t s
text_eq_sym s t = elim (Bool-cases (text_eq s t)) [
  | inl same ↦ ground (arith, (text_eq_iff s t).0 same, text_eq_refl s, text_eq_refl t)
  | inr other ↦ elim (Bool-cases (text_eq t s)) [
    | inl same ↦ absurd (ground (arith, (text_eq_iff t s).0 same, text_eq_refl s))
    | inr other' ↦ other ∙ sym other'
  ]
]

-- What is left of a request are the addresses that it names.
has-named :
    (addrs : List Text) (lowered : Text)
    → has (λ x. text_eq (to_lower x) lowered) (select is_some_text (map normal addrs))
      ≡ named addrs lowered
has-named [] lowered = ground arith
has-named (a ∷ addrs) lowered =
    let kept = ap (λ s. text_eq s lowered) (to_lower_idem (trim a)) in
    elim (Bool-cases (text_eq (normal a) lowered)) [
      | inl same ↦
          let moved = ap (λ s. text_eq s []) ((text_eq_iff (normal a) lowered).0 same) in
          ground (arith, kept, moved, text_eq_sym (normal a) lowered, has-named addrs lowered)
      | inr other ↦
          ground (arith, other, kept, text_eq_sym (normal a) lowered, has-named addrs lowered)
    ]

has-dedupe :
    (addrs : List Text) (lowered : Text)
    → has (λ x. text_eq (to_lower x) lowered) (dedupe addrs) ≡ named addrs lowered
unfolding dedupe
has-dedupe addrs lowered =
    has-to_set (λ x. text_eq (to_lower x) lowered) [] (select is_some_text (map normal addrs))
    ∙ has-named addrs lowered

has-exclude_group :
    (id id' : ℕ) (lowered : Text) (rows : List GroupMemberRow)
    → has (member_at id' lowered) (exclude (in_group id) rows)
      ≡ (if id == id' then false else has (member_at id' lowered) rows)
has-exclude_group id id' lowered [] = ground arith
has-exclude_group id id' lowered (m ∷ rows) = ground (arith, has-exclude_group id id' lowered rows)

-- A request that succeeded, with the tables before and after it and what it asks of the members.
pub data Change (by_address : List GroupMemberRow → List GroupMemberRow) (db db' : Db)
    : Op → Type 0 where
  by_create :
      (now id : ℕ) (p : Principal) (org domain : ℕ) (req : CreateMailGroup) (g : MailGroupDetail)
      → create by_address now id p org domain req db ≡ ok (g, db')
      → Change by_address db db' (add id (named req.members))
  by_update :
      (now : ℕ) (p : Principal) (org id : ℕ) (req : UpdateMailGroup) (g : MailGroupDetail)
      → update by_address now p org id req db ≡ ok (g, db')
      → Change by_address db db' keep
  by_set_members :
      (now : ℕ) (p : Principal) (org id : ℕ) (members : List Text) (g : MailGroupDetail)
      → set_members by_address now p org id members db ≡ ok (g, db')
      → Change by_address db db' (replace id (named members))
  by_remove :
      (now : ℕ) (p : Principal) (org id : ℕ)
      → remove by_address now p org id db ≡ ok db'
      → Change by_address db db' (replace id (λ a. false))

-- The rows implement sets: a creation adds the addresses that the request names to the members of
-- the new group, setting the members replaces those of the group by the addresses named, a removal
-- leaves the group none, an update changes none, and no other group's members change.
pub Change-run :
    (by_address : List GroupMemberRow → List GroupMemberRow) (db db' : Db) (op : Op)
    → Change by_address db db' op
    → (id : ℕ) (lowered : Text) → members_of db' id lowered ≡ run op (members_of db) id lowered
unfolding create update set_members remove
Change-run by_address db db' op (by_create now id p org domain req g e) id' lowered = ground (
  arith,
  insert_all id id' (dedupe req.members) lowered db.group_members,
  has-dedupe req.members lowered,
)
Change-run by_address db db' op (by_update now p org id req g e) id' lowered = ground arith
Change-run by_address db db' op (by_set_members now p org id members g e) id' lowered = ground (
  arith,
  insert_all id id' (dedupe members) lowered (exclude (in_group id) db.group_members),
  has-dedupe members lowered,
  has-exclude_group id id' lowered db.group_members,
)
Change-run by_address db db' op (by_remove now p org id e) id' lowered =
    ground (arith, has-exclude_group id id' lowered db.group_members)
