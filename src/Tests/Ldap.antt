-- ===== src/Tests/Ldap.antt =====
-- Two groups that are each other's parent, and a role map.
use justmail.Prelude.{◌≡◌, ◌⊎◌, ◌↔◌, true, [], ◌∷◌, List, some, none, Text, codes, All}
use justmail.Store.{Role, admin, member, viewer}
use justmail.Ldap.{contains, expand_groups, resolve_role, escape_filter_value}
use justmail.Ldap.Closure.{Belongs}
use justmail.Ldap.Expansion.{steps, expand_groups_iff}
use justmail.Ldap.Roles.{Gives, IsAbove, role_of, resolve_role_lem}
use justmail.Ldap.Filter.{IsInert, read_value, escape_filter_value_lem}

abbrev same : Text → Text
same s = s

abbrev parents : List (Text × List Text)
parents = (codes "a", codes "b" ∷ []) ∷ (codes "b", codes "a" ∷ []) ∷ []

abbrev direct : List Text
direct = codes " a " ∷ []

expand_groups_iff_example :
    (res : List Text) × (expand_groups same (steps same parents direct) direct parents ≡ some res)
    × ((g : Text) → (contains g res ≡ true) ↔ Belongs same parents direct g)
expand_groups_iff_example = expand_groups_iff same parents direct

abbrev role_map : List (Text × Role)
role_map = (codes "a", member) ∷ (codes "b", admin) ∷ []

abbrev groups : List Text
groups = codes "a" ∷ codes "b" ∷ codes "c" ∷ []

resolve_role_lem_example :
    (Gives same role_map (resolve_role same groups role_map viewer) groups
      × IsAbove same role_map (resolve_role same groups role_map viewer) groups)
    ⊎ ((resolve_role same groups role_map viewer ≡ viewer)
        × All (λ g. role_of same role_map g ≡ none) groups)
resolve_role_lem_example = resolve_role_lem same role_map groups viewer

escape_filter_value_lem_example :
    All IsInert (escape_filter_value (codes "a*(b)\\"))
    × (read_value (escape_filter_value (codes "a*(b)\\")) ≡ codes "a*(b)\\")
escape_filter_value_lem_example = escape_filter_value_lem (codes "a*(b)\\")
