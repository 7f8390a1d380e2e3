-- ===== src/Aliases.antt =====
-- apps/api/src/aliases/aliases.service.ts. The order of the listings, that of the database's
-- collation, is an argument.
pub mod Isolation
use justmail.Prelude.Table.{select}
use justmail.Prelude.{true}
use justmail.Prelude.{
  ℕ, Bool, not, ◌&&◌, List, [], ◌∷◌, ◌++◌, Option, none, some, Text, text_eq, ◌==◌, Result, ok, err,
  not_found, conflict, ◌>>=◌, ◌>>◌, throw_if,
}
use justmail.Prelude.Table.{exclude, modify, first?, has}
use justmail.Prelude.Texts.{to_lower}
use justmail.Store.{admin, viewer, DomainRow, AliasRow, Db, Principal}
use justmail.Orgs.{require_role}
use justmail.Orgs.Members.{user_event}
use justmail.Mailboxes.{domain_at}

-- The row of the join with `domains`.
pub record Alias : Type 0 where
  pub row : AliasRow
  pub domain : DomainRow

-- `address` of `toAlias`
abbrev pub address : Alias → Text
address a = a.row.source ++ (b'@' ∷ a.domain.name)

-- `assertDomain`
unfoldable pub assert_domain : ℕ → ℕ → ℕ → ℕ → Db → Result (Unit {0})
assert_domain now org domain user db = do
  require_role now org user viewer db
  throw_if (not (has (domain_at org domain) db.domains)) (not_found "Domain not found")

abbrev pub join_one : AliasRow → Option DomainRow → List Alias → List Alias
join_one a none rest = rest
join_one a (some d) rest = record { row = a; domain = d } ∷ rest

-- The aliases whose domain is of the organization, each beside it.
unfoldable pub join_domains : ℕ → List DomainRow → List AliasRow → List Alias
join_domains org ds [] = []
join_domains org ds (a ∷ rows) =
    let rest = join_domains org ds rows in join_one a (first? (domain_at org a.domain_id) ds) rest

-- `list`
abbrev pub list : (List Alias → List Alias) → ℕ → ℕ → ℕ → ℕ → Db → Result (List Alias)
list order now org domain user db = do
  assert_domain now org domain user db
  ok (order (join_domains org db.domains (select (λ a. a.domain_id == domain) db.aliases)))

-- `listOrg`
unfoldable pub list_org : (List Alias → List Alias) → ℕ → ℕ → ℕ → Db → Result (List Alias)
list_org order now org user db = do
  require_role now org user viewer db
  ok (order (join_domains org db.domains db.aliases))

abbrev pub found : List Alias → Result Alias
found [] = err (not_found "Alias not found")
found (a ∷ rest) = ok a

-- `get`
unfoldable pub get : ℕ → ℕ → ℕ → ℕ → Db → Result Alias
get now org id user db = do
  require_role now org user viewer db
  found (join_domains org db.domains (select (λ a. a.id == id) db.aliases))

-- The unique key (domain_id, source), a `citext`.
abbrev pub alias_at : ℕ → Text → AliasRow → Bool
alias_at domain source a = a.domain_id == domain && text_eq (to_lower a.source) (to_lower source)

abbrev pub or_true : Option Bool → Bool
or_true none = true
or_true (some b) = b

abbrev pub new_alias : ℕ → ℕ → Text → List Text → Option Bool → AliasRow
new_alias id domain source destinations enabled = record {
  id = id;
  domain_id = domain;
  source = source;
  destinations = destinations;
  enabled = or_true enabled;
}

-- `create`
unfoldable pub create :
    ℕ → ℕ → Principal → ℕ → ℕ → Text → List Text → Option Bool → Db → Result (Alias × Db)
create now id p org domain source destinations enabled db = do
  require_role now org p.user_id admin db
  assert_domain now org domain p.user_id db
  throw_if (has (alias_at domain (to_lower source)) db.aliases) (conflict "Alias already exists")
  let row = new_alias id domain (to_lower source) destinations enabled
  let db' =
      user_event org p.user_id "alias.create" "alias" id
        (record db { aliases = db.aliases ++ row ∷ [] })
  created ← get now org id p.user_id db'
  ok (created, db')

-- `UpdateAliasRequest`
pub record UpdateAlias : Type 0 where
  pub destinations : Option (List Text)
  pub enabled : Option Bool

-- A column that the request names takes its value.
abbrev pub or_kept {ℓ} : {A : Type ℓ} → Option A → A → A
or_kept none old = old
or_kept (some new) old = new

abbrev pub apply_update : UpdateAlias → AliasRow → AliasRow
apply_update req a = record a {
  destinations = or_kept req.destinations a.destinations;
  enabled = or_kept req.enabled a.enabled;
}

-- `update`
unfoldable pub update : ℕ → Principal → ℕ → ℕ → UpdateAlias → Db → Result (Alias × Db)
update now p org id req db = do
  require_role now org p.user_id admin db
  old ← get now org id p.user_id db
  let db' =
      user_event org p.user_id "alias.update" "alias" id
        (record db { aliases = modify (λ a. a.id == id) (apply_update req) db.aliases })
  written ← get now org id p.user_id db'
  ok (written, db')

-- `remove`
unfoldable pub remove : ℕ → Principal → ℕ → ℕ → Db → Result Db
remove now p org id db = do
  require_role now org p.user_id admin db
  old ← get now org id p.user_id db
  ok (
      user_event org p.user_id "alias.delete" "alias" id
        (record db { aliases = exclude (λ a. a.id == id) db.aliases }))
