-- ===== src/Tests/Aliases.antt =====
-- An alias that another organization changes is none of one's own.
use justmail.Prelude.{◌≡◌, List, [], ◌∷◌, some, none, codes, text_eq, refl, arith}
use justmail.Store.{owner, DomainRow, Db}
use justmail.Orgs.{require_role, find_role}
use justmail.Aliases.{Alias, UpdateAlias, new_alias, update, get, join_domains, list_org}
use justmail.Aliases.Isolation.{by_update, Change-isolated}
use justmail.Tests.Data.{value, actor, seat, office_domain, office}

abbrev branch_domain : DomainRow
branch_domain = record office_domain { id = 8; org_id = 2; name = codes "two.org" }

-- Two organizations with an alias each.
abbrev two_orgs : Db
two_orgs = record office {
  domains = office_domain ∷ branch_domain ∷ [];
  members = seat 2 4 owner ∷ office.members;
  aliases =
      new_alias 79 7 (codes "info") (codes "a@ex.org" ∷ []) none
      ∷ new_alias 80 8 (codes "info") (codes "d@ex.org" ∷ []) none
      ∷ [];
}

abbrev moved : UpdateAlias
moved = record { destinations = some (codes "b@ex.org" ∷ []); enabled = none }

abbrev before : Alias
before = record {
  row = new_alias 79 7 (codes "info") (codes "a@ex.org" ∷ []) none;
  domain = office_domain;
}

abbrev changed : Alias × Db
changed = value (before, two_orgs) (update 5 (actor 2) 1 79 moved two_orgs)

abbrev as_stored : List Alias → List Alias
as_stored rows = rows

Change-isolated_example : list_org as_stored 6 2 4 changed.1 ≡ list_org as_stored 6 2 4 two_orgs
unfolding update get join_domains require_role find_role text_eq
Change-isolated_example =
    Change-isolated as_stored 6 1 2 4 two_orgs changed.1 (refl, (refl, tt)) (refl, (refl, tt))
      (omega arith) (by_update 5 79 (actor 2) moved changed.0 refl)
