-- ===== src/Aliases/Isolation.antt =====
-- The requests of one organization to apps/api/src/aliases/aliases.service.ts, and what another one sees.
use justmail.Prelude.{
  ℕ, ◌≡◌, ◌≢◌, Bool, true, false, List, [], ◌∷◌, ◌++◌, Option, none, some, Text, arith, ◌==◌, refl,
  ok, inl, inr, Bool-cases, Option-cases, Result-cases, All,
}
use justmail.Prelude.Table.{select, modify, exclude, first?, has}
use justmail.Prelude.Keys.{IsUnique}
use justmail.Prelude.Texts.{to_lower}
use justmail.Store.{viewer, DomainRow, AliasRow, Db, Principal}
use justmail.Mailboxes.{domain_at}
use justmail.Mailboxes.Quotas.{AreKeyed}
use justmail.Mailboxes.Limits.{require_role-mailboxes}
use justmail.Aliases.{
  Alias, assert_domain, join_domains, list_org, found, get, new_alias, create, UpdateAlias,
  apply_update, update, remove,
}

-- A request of an organization that succeeded, with the tables before and after it.
pub data Change (org : ℕ) (db db' : Db) : Type 0 where
  by_create :
      (now id : ℕ) (p : Principal) (domain : ℕ) (source : Text) (destinations : List Text)
      (enabled : Option Bool) (a : Alias)
      → create now id p org domain source destinations enabled db ≡ ok (a, db')
      → Change org db db'
  by_update :
      (now id : ℕ) (p : Principal) (req : UpdateAlias) (a : Alias)
      → update now p org id req db ≡ ok (a, db')
      → Change org db db'
  by_remove : (now id : ℕ) (p : Principal) → remove now p org id db ≡ ok db' → Change org db db'

abbrev pub same_id : AliasRow → AliasRow → Bool
same_id a b = a.id == b.id

-- The tables that a listing reads besides the aliases.
abbrev IsKept : Db → Db → Type 0
IsKept db db' = (db'.domains ≡ db.domains) × (db'.members ≡ db.members) × (db'.keys ≡ db.keys)

absent_id :
    (other i j : ℕ) (ds : List DomainRow)
    → has (λ e. e.id == j) ds ≡ false
    → i ≡ j
    → first? (domain_at other i) ds ≡ none
absent_id other i j [] h e = refl
absent_id other i j (d ∷ ds) h e = ground (arith, absent_id other i j ds)

-- A domain of one organization is no domain of another.
foreign_domain :
    (org other i : ℕ) (ds : List DomainRow) (d : DomainRow)
    → AreKeyed ds
    → other ≢ org
    → first? (domain_at org i) ds ≡ some d
    → first? (domain_at other i) ds ≡ none
foreign_domain org other i [] d k ne h = refl
foreign_domain org other i (x ∷ ds) d (hx, k) ne h = elim (Bool-cases (x.id == i)) [
  | inr apart ↦ ground (arith, apart, foreign_domain org other i ds d k ne)
  | inl same ↦
      let one = absent_id org i x.id ds hx (ground arith) in
      let two = absent_id other i x.id ds hx (ground arith) in ground (arith, same, one, two)
]

-- A row whose domain is no domain of the organization.
abbrev IsForeign : ℕ → List DomainRow → AliasRow → Type 0
IsForeign other ds a = first? (domain_at other a.domain_id) ds ≡ none

join_domains-append :
    (other : ℕ) (ds : List DomainRow) (rows : List AliasRow) (a : AliasRow)
    → IsForeign other ds a
    → join_domains other ds (rows ++ a ∷ []) ≡ join_domains other ds rows
unfolding join_domains
join_domains-append other ds [] a h = rw h refl
join_domains-append other ds (x ∷ rows) a h = rw (join_domains-append other ds rows a h) refl

join_domains-modify :
    (other id : ℕ) (req : UpdateAlias) (ds : List DomainRow) (rows : List AliasRow)
    → All (λ x. (x.id == id) ≡ true → IsForeign other ds x) rows
    → join_domains other ds (modify (λ x. x.id == id) (apply_update req) rows)
      ≡ join_domains other ds rows
unfolding join_domains
join_domains-modify other id req ds [] h = refl
join_domains-modify other id req ds (x ∷ rows) (hx, h) = elim (Bool-cases (x.id == id)) [
  | inl hit ↦ rw hit (rw (hx hit) (join_domains-modify other id req ds rows h))
  | inr miss ↦ rw miss (rw (join_domains-modify other id req ds rows h) refl)
]

join_domains-exclude :
    (other id : ℕ) (ds : List DomainRow) (rows : List AliasRow)
    → All (λ x. (x.id == id) ≡ true → IsForeign other ds x) rows
    → join_domains other ds (exclude (λ x. x.id == id) rows) ≡ join_domains other ds rows
unfolding join_domains
join_domains-exclude other id ds [] h = refl
join_domains-exclude other id ds (x ∷ rows) (hx, h) = elim (Bool-cases (x.id == id)) [
  | inl hit ↦ rw hit (rw (hx hit) (join_domains-exclude other id ds rows h))
  | inr miss ↦ rw miss (rw (join_domains-exclude other id ds rows h) refl)
]

none_left :
    (other id : ℕ) (ds : List DomainRow) (x : AliasRow) (rows : List AliasRow)
    → has (same_id x) rows ≡ false
    → x.id ≡ id
    → (select (λ y. y.id == id) rows ≡ [])
      × All (λ y. (y.id == id) ≡ true → IsForeign other ds y) rows
none_left other id ds x [] h e = (refl, tt)
none_left other id ds x (y ∷ rows) h e =
    let miss : (y.id == id) ≡ false = ground arith in
    let (alone, rest) = none_left other id ds x rows (ground arith) e in
    (rw miss alone, (λ hit. absurd (ground (arith, miss, hit)), rest))

-- The rows with the id of an alias that was found are foreign to every other organization.
found-IsForeign :
    (org other id : ℕ) (ds : List DomainRow) (rows : List AliasRow) (a : Alias)
    → AreKeyed ds
    → IsUnique same_id rows
    → other ≢ org
    → found (join_domains org ds (select (λ x. x.id == id) rows)) ≡ ok a
    → All (λ x. (x.id == id) ≡ true → IsForeign other ds x) rows
unfolding join_domains
found-IsForeign org other id ds [] a k u ne h = tt
found-IsForeign org other id ds (x ∷ rows) a k (ux, u) ne h = elim (Bool-cases (x.id == id)) [
  | inr miss ↦ (
    λ hit. absurd (ground arith),
    found-IsForeign org other id ds rows a k u ne (ground (arith, miss)),
  )
  | inl hit ↦
      let (alone, rest) = none_left other id ds x rows ux (ground arith) in
      elim (Option-cases (first? (domain_at org x.domain_id) ds)) [
        | inl lost ↦ absurd (ground (arith, hit, alone, lost))
        | inr (d, there) ↦ (λ _. foreign_domain org other x.domain_id ds d k ne there, rest)
      ]
]

create-eq-ok :
    (now id : ℕ) (p : Principal) (org domain : ℕ) (source : Text) (destinations : List Text)
    (enabled : Option Bool) (db db' : Db) (a : Alias)
    → create now id p org domain source destinations enabled db ≡ ok (a, db')
    → (db'.aliases ≡ db.aliases ++ new_alias id domain (to_lower source) destinations enabled ∷ [])
      × (has (domain_at org domain) db.domains ≡ true)
      × IsKept db db'
unfolding create assert_domain
create-eq-ok now id p org domain source destinations enabled db db' a h = ground arith

update-eq-ok :
    (now id : ℕ) (p : Principal) (org : ℕ) (req : UpdateAlias) (db db' : Db) (a : Alias)
    → update now p org id req db ≡ ok (a, db')
    → (old : Alias) × (found (join_domains org db.domains (select (λ x. x.id == id) db.aliases))
        ≡ ok old)
      × (db'.aliases ≡ modify (λ x. x.id == id) (apply_update req) db.aliases)
      × IsKept db db'
unfolding update get
update-eq-ok now id p org req db db' a h =
    elim (Result-cases
      (found (join_domains org db.domains (select (λ x. x.id == id) db.aliases)))) [
        | inr (e, failed) ↦ absurd (ground (arith, failed))
        | inl (old, there) ↦ (old, there, ground arith, ground arith)
      ]

remove-eq-ok :
    (now id : ℕ) (p : Principal) (org : ℕ) (db db' : Db)
    → remove now p org id db ≡ ok db'
    → (old : Alias) × (found (join_domains org db.domains (select (λ x. x.id == id) db.aliases))
        ≡ ok old)
      × (db'.aliases ≡ exclude (λ x. x.id == id) db.aliases)
      × IsKept db db'
unfolding remove get
remove-eq-ok now id p org db db' h =
    elim (Result-cases
      (found (join_domains org db.domains (select (λ x. x.id == id) db.aliases)))) [
        | inr (e, failed) ↦ absurd (ground (arith, failed))
        | inl (old, there) ↦ (old, there, ground arith, ground arith)
      ]

first?-none :
    (org domain : ℕ) (ds : List DomainRow)
    → first? (domain_at org domain) ds ≡ none
    → has (domain_at org domain) ds ≡ false
first?-none org domain [] h = refl
first?-none org domain (d ∷ ds) h = ground (arith, first?-none org domain ds)

has-foreign :
    (org other domain : ℕ) (ds : List DomainRow)
    → AreKeyed ds
    → other ≢ org
    → has (domain_at org domain) ds ≡ true
    → first? (domain_at other domain) ds ≡ none
has-foreign org other domain ds k ne h = elim (Option-cases (first? (domain_at org domain) ds)) [
  | inl missing ↦ absurd (ground (arith, first?-none org domain ds missing))
  | inr (d, there) ↦ foreign_domain org other domain ds d k ne there
]

Change-joined :
    (org other : ℕ) (db db' : Db)
    → AreKeyed db.domains
    → IsUnique same_id db.aliases
    → other ≢ org
    → Change org db db'
    → (join_domains other db'.domains db'.aliases ≡ join_domains other db.domains db.aliases)
      × IsKept db db'
Change-joined org other db db' k u ne (by_create now id p domain source destinations enabled a e) =
    let (rows, there, kept) =
      create-eq-ok now id p org domain source destinations enabled db db' a e in
    let foreign = has-foreign org other domain db.domains k ne there in
    (
      rw (rows, kept.0)
          (join_domains-append other db.domains db.aliases
            (new_alias id domain (to_lower source) destinations enabled) foreign),
      kept,
    )
Change-joined org other db db' k u ne (by_update now id p req a e) =
    let (old, there, rows, kept) = update-eq-ok now id p org req db db' a e in
    (
      rw (rows, kept.0)
          (join_domains-modify other id req db.domains db.aliases
            (found-IsForeign org other id db.domains db.aliases old k u ne there)),
      kept,
    )
Change-joined org other db db' k u ne (by_remove now id p e) =
    let (old, there, rows, kept) = remove-eq-ok now id p org db db' e in
    (
      rw (rows, kept.0)
          (join_domains-exclude other id db.domains db.aliases
            (found-IsForeign org other id db.domains db.aliases old k u ne there)),
      kept,
    )

-- Where the ids of domains and of aliases are distinct, no request of one organization changes what
-- another organization's listing answers, whoever asks for it and when: its own aliases, or the
-- refusal.
pub Change-isolated :
    (order : List Alias → List Alias) (now org other user : ℕ) (db db' : Db)
    → AreKeyed db.domains
    → IsUnique same_id db.aliases
    → other ≢ org
    → Change org db db'
    → list_org order now other user db' ≡ list_org order now other user db
unfolding list_org
Change-isolated order now org other user db db' k u ne change =
    let (joined, kept) = Change-joined org other db db' k u ne change in
    rw (require_role-mailboxes now other user viewer db db' kept.1 kept.2) (rw joined refl)
