-- ===== src/Ldap.antt =====
-- apps/api/src/ldap/mapping.ts. `lower_case` is JavaScript's `toLowerCase`.
pub mod Closure
pub mod Expansion
pub mod Roles
pub mod Filter
use justmail.Prelude.{
  ℕ, zero, suc, Bool, true, false, not, ◌&&◌, ◌||◌, List, [], ◌∷◌, ◌++◌, Option, none, some, String,
  Text, codes, text_eq, ltb, ◌==◌, ◌≐◌, if◌then◌else◌, map,
}
use justmail.Prelude.Texts.{trim}
use justmail.Store.{Role}
use justmail.Orgs.{rank}

-- A value of an entry's attribute: absent, one value, or several, each already as a text.
pub data Value : Type 0 where
  absent : Value
  one : Text → Value
  many : List Text → Value

pub record LdapEntry : Type 0 where
  pub dn : Text
  pub attributes : List (String × Value)

pub record MappingConfig : Type 0 where
  pub email_attribute : String
  pub name_attribute : String
  pub uid_attribute : String
  pub member_attribute : String

pub record MappedUser : Type 0 where
  pub external_id : Text
  pub email : Option Text
  pub name : Option Text
  pub uid : Option Text
  pub groups : List Text

-- `escapeFilterValue`, one code unit at a time.
abbrev pub escape_unit : ℕ → Text
escape_unit c =
    if c == b'\\'
    then codes "\\5c"
    else if c == b'*'
    then codes "\\2a"
    else if c == b'('
    then codes "\\28"
    else if c == b')'
    then codes "\\29"
    else if c == 0
    then codes "\\00"
    else c ∷ []

unfoldable pub escape_filter_value : Text → Text
escape_filter_value [] = []
escape_filter_value (c ∷ s) = escape_unit c ++ escape_filter_value s

abbrev pub is_empty : Text → Bool
is_empty [] = true
is_empty (c ∷ s) = false

abbrev non_empty : List Text → List Text
non_empty [] = []
non_empty (v ∷ vs) = if is_empty v then non_empty vs else v ∷ non_empty vs

-- `asArray`
abbrev as_array : Value → List Text
as_array absent = []
as_array (one v) = non_empty (v ∷ [])
as_array (many vs) = non_empty vs

abbrev attribute : String → List (String × Value) → Value
attribute k [] = absent
attribute k ((j, v) ∷ rest) = if j ≐ k then v else attribute k rest

abbrev head? : List Text → Option Text
head? [] = none
head? (v ∷ vs) = some v

-- `allAttr` and `firstAttr`
abbrev pub all_attr : LdapEntry → String → List Text
all_attr e attr = as_array (attribute attr e.attributes)

abbrev pub first_attr : LdapEntry → String → Option Text
first_attr e attr = head? (as_array (attribute attr e.attributes))

abbrev pub contains : Text → List Text → Bool
contains g [] = false
contains g (x ∷ xs) = text_eq x g || contains g xs

-- `parents.get(g) ?? []`
abbrev pub parents_of : Text → List (Text × List Text) → List Text
parents_of g [] = []
parents_of g ((k, ps) ∷ rest) = if text_eq k g then ps else parents_of g rest

-- `new Map().set(dn, role)`: a key that is there keeps its place and gets the new role.
abbrev pub put_role : Text → Role → List (Text × Role) → List (Text × Role)
put_role dn role [] = (dn, role) ∷ []
put_role dn role ((k, r) ∷ rest) =
    if text_eq k dn then (k, role) ∷ rest else (k, r) ∷ put_role dn role rest

abbrev pub role_for : Text → List (Text × Role) → Option Role
role_for dn [] = none
role_for dn ((k, r) ∷ rest) = if text_eq k dn then some r else role_for dn rest

module _ (lower_case : Text → Text) where
  -- `normalizeDn`
  unfoldable pub normalize_dn : Text → Text
  normalize_dn dn = lower_case (trim dn)

  abbrev lowered : Option Text → Option Text
  lowered none = none
  lowered (some e) = some (lower_case e)

  -- `mapEntry`
  abbrev pub map_entry : LdapEntry → MappingConfig → MappedUser
  map_entry e cfg = record {
    external_id = normalize_dn e.dn;
    email = lowered (first_attr e cfg.email_attribute);
    name = first_attr e cfg.name_attribute;
    uid = first_attr e cfg.uid_attribute;
    groups = map normalize_dn (all_attr e cfg.member_attribute);
  }

  -- The inner loop of `expandGroups`: the parents that are not seen yet go to the queue's end.
  pub offer : List Text → List Text → List Text → List Text
  offer seen queue [] = queue
  offer seen queue (parent ∷ ps) =
      let p = normalize_dn parent in
      offer seen (if contains p seen then queue else queue ++ p ∷ []) ps

  -- The outer loop on fuel; `none` means that the fuel ran out.
  pub expand : List (Text × List Text) → ℕ → List Text → List Text → Option (List Text)
  unfolding offer
  expand parents zero seen [] = some seen
  expand parents zero seen (g ∷ queue) = none
  expand parents (suc fuel) seen [] = some seen
  expand parents (suc fuel) seen (g ∷ queue) =
      let skip = expand parents fuel seen queue in
      let visit =
        expand parents fuel (seen ++ g ∷ [])
          (offer (seen ++ g ∷ []) queue (parents_of g parents)) in
      if contains g seen then skip else visit

  -- `expandGroups`
  unfoldable pub expand_groups : ℕ → List Text → List (Text × List Text) → Option (List Text)
  unfolding expand
  expand_groups fuel direct parents = expand parents fuel [] (map normalize_dn direct)

  -- `normalizedMap`
  pub normalized_map : List (Text × Role) → List (Text × Role) → List (Text × Role)
  normalized_map done [] = done
  normalized_map done ((dn, role) ∷ rest) =
      normalized_map (put_role (normalize_dn dn) role done) rest

  abbrev pub better : Option Role → Option Role → Option Role
  better none best = best
  better (some role) none = some role
  better (some role) (some best) = if ltb (rank best) (rank role) then some role else some best

  pub best_role : List (Text × Role) → Option Role → List Text → Option Role
  best_role roles best [] = best
  best_role roles best (g ∷ gs) = best_role roles (better (role_for (normalize_dn g) roles) best) gs

  abbrev pub or_default : Option Role → Role → Role
  or_default none d = d
  or_default (some r) d = r

  -- `resolveRole`
  unfoldable pub resolve_role : List Text → List (Text × Role) → Role → Role
  unfolding normalized_map best_role
  resolve_role groups role_map default_role =
      or_default (best_role (normalized_map [] role_map) none groups) default_role
