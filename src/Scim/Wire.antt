-- ===== src/Scim/Wire.antt =====
-- The wire shapes and the pure helpers of apps/api/src/scim/scim.service.ts. `uuid_of` is the number
-- of a text that `isUuid` admits, `to_text` is JavaScript's `String`.
use justmail.Prelude.{
  ℕ, Bool, true, false, not, ◌&&◌, List, [], ◌∷◌, Option, none, some, Text, codes, text_eq, ◌==◌,
  if◌then◌else◌,
}
use justmail.Prelude.Table.{select}
use justmail.Prelude.Texts.{to_lower, is_space, join}
use justmail.Prelude.Regex.{Re, followed, literal, unit, many, match}
use justmail.Domains.Bimi.{word_unit}

-- The `unknown` value of an operation.
mutual
  pub data Json : Type 0 where
    null : Json
    boolean : Bool → Json
    number : Text → Json
    text : Text → Json
    array : Items → Json
    object : Fields → Json

  pub data Items : Type 0 where
    no_items : Items
    item : Json → Items → Items

  pub data Fields : Type 0 where
    no_fields : Fields
    field : Text → Json → Fields → Fields

pub record ScimName : Type 0 where
  pub formatted : Option Text
  pub given_name : Option Text
  pub family_name : Option Text

pub record ScimEmail : Type 0 where
  pub value : Text
  pub primary : Bool

pub record ScimUser : Type 0 where
  pub external_id : Option Text
  pub user_name : Option Text
  pub name : Option ScimName
  pub display_name : Option Text
  pub emails : List ScimEmail
  pub active : Option Bool

-- `members` by the values of its entries.
pub record ScimGroup : Type 0 where
  pub external_id : Option Text
  pub display_name : Option Text
  pub members : List Text

pub record PatchOp : Type 0 where
  pub op : Text
  pub path : Option Text
  pub value : Json

-- `??`
abbrev pub or {ℓ} : {A : Type ℓ} → Option A → A → A
or none d = d
or (some a) d = a

-- A text that JavaScript takes for true.
abbrev pub truthy : Option Text → Bool
truthy none = false
truthy (some []) = false
truthy (some (c ∷ s)) = true

abbrev pub primary_of : List ScimEmail → Option ScimEmail
primary_of [] = none
primary_of (e ∷ rest) = let later = primary_of rest in if e.primary then some e else later

abbrev pub first_email : List ScimEmail → Option ScimEmail
first_email [] = none
first_email (e ∷ rest) = some e

abbrev pub first_of : Option ScimEmail → Option ScimEmail → Option ScimEmail
first_of none other = other
first_of (some e) other = some e

abbrev pub address_of : Option ScimEmail → Option Text
address_of none = none
address_of (some e) = if truthy (some e.value) then some (to_lower e.value) else none

-- `primaryEmail`
unfoldable pub primary_email : ScimUser → Option Text
primary_email body = address_of (first_of (primary_of body.emails) (first_email body.emails))

abbrev pub full_name : Option ScimName → Text
full_name none = []
full_name (some n) =
    if truthy n.formatted
    then or n.formatted []
    else join (codes " ")
        (select (λ s. truthy (some s)) (or n.given_name [] ∷ or n.family_name [] ∷ []))

-- `displayNameOf`
unfoldable pub display_name_of : ScimUser → Text
display_name_of body =
    if truthy body.display_name then or body.display_name [] else full_name body.name

-- `toBool`
unfoldable pub to_bool : Json → Bool
to_bool (boolean b) = b
to_bool (text s) = text_eq (to_lower s) (codes "true")
to_bool _ = false

abbrev pub take_while : (ℕ → Bool) → Text → Text
take_while p [] = []
take_while p (c ∷ s) = if p c then c ∷ take_while p s else []

abbrev pub drop_while : (ℕ → Bool) → Text → Text
drop_while p [] = []
drop_while p (c ∷ s) = if p c then drop_while p s else c ∷ s

abbrev pub drop_spaces : Text → Text
drop_spaces = drop_while is_space

abbrev pub not_quote : ℕ → Bool
not_quote c = not (c == b'"')

abbrev pub is_nothing : Text → Bool
is_nothing [] = true
is_nothing (c ∷ s) = false

-- Behind the word: `\s+eq\s+"`.
abbrev pub eq_quote : Re
eq_quote = followed (unit is_space) (
    followed (many is_space) (
      followed (literal (codes "eq"))
        (followed (unit is_space) (followed (many is_space) (unit (λ c. c == b'"'))))))

-- Behind the value: `"\s*$`.
abbrev pub closes : Text → Bool
closes [] = false
closes (c ∷ s) = c == b'"' && is_nothing (drop_spaces s)

abbrev pub filter_value : Text → List Text → Option (Text × Text)
filter_value attr [] = none
filter_value attr (s ∷ rest) =
    if closes (drop_while not_quote s) then some (attr, take_while not_quote s) else none

abbrev pub filter_of : Text → Option (Text × Text)
filter_of s =
    let attr = take_while word_unit s in
    if is_nothing attr then none else filter_value attr (match eq_quote (drop_while word_unit s))

-- `parseEqFilter`: the attribute and the value.
unfoldable pub parse_eq_filter : Option Text → Option (Text × Text)
parse_eq_filter none = none
parse_eq_filter (some s) = filter_of (drop_spaces s)

abbrev pub field_of : Text → Fields → Option Json
field_of k no_fields = none
field_of k (field j v rest) = let later = field_of k rest in if text_eq j k then some v else later

abbrev pub text_value : Option Json → Option Text
text_value (some (text s)) = some s
text_value _ = none

module _ (to_text : Json → Text) where
  -- `String(v.value ?? "")` of an object, `String(v)` of another value.
  abbrev pub item_text : Json → Text
  item_text (object fields) = elim (field_of (codes "value") fields) [
    | none ↦ []
    | some null ↦ []
    | some v ↦ to_text v
  ]
  item_text (array items) = []
  item_text v = to_text v

  abbrev pub item_texts : Items → List Text
  item_texts no_items = []
  item_texts (item v rest) =
      let later = item_texts rest in if is_nothing (item_text v) then later else item_text v ∷ later

  -- Whether a value is one that JavaScript takes for true.
  abbrev pub is_truthy : Json → Bool
  is_truthy null = false
  is_truthy (boolean b) = b
  is_truthy (text s) = truthy (some s)
  is_truthy (number s) = not (text_eq s (codes "0"))
  is_truthy _ = true

  abbrev pub one_value : Option Json → List Text
  one_value none = []
  one_value (some v) = if is_truthy v then to_text v ∷ [] else []

  -- `memberValues`
  unfoldable pub member_values : Json → List Text
  member_values (array items) = item_texts items
  member_values (object fields) = one_value (field_of (codes "value") fields)
  member_values _ = []

-- `members\[\s*value\s+eq\s+"`
abbrev pub members_value : Re
members_value =
    followed (literal (codes "members["))
      (followed (many is_space) (followed (literal (codes "value")) eq_quote))

-- Behind the value: `"\s*\]`.
abbrev pub ends_path : Text → Bool
ends_path [] = false
ends_path (c ∷ s) = c == b'"' && (elim (drop_spaces s) [ [] ↦ false | d ∷ rest ↦ d == b']' ])

abbrev pub path_value : List Text → Option (List Text)
path_value [] = none
path_value (s ∷ rest) =
    let v = take_while not_quote s in
    if not (is_nothing v) && ends_path (drop_while not_quote s) then some (v ∷ []) else none

abbrev pub search_path : Text → Option (List Text)
search_path [] = none
search_path (c ∷ s) =
    let later = search_path s in
    elim (path_value (match members_value (c ∷ s))) [ none ↦ later | some v ↦ some v ]

-- `memberFromPath`
unfoldable pub member_from_path : Option Text → Option (List Text)
member_from_path none = none
member_from_path (some path) = search_path path

abbrev pub lowered_path : PatchOp → Text
lowered_path op = to_lower (or op.path [])

-- `valueDisplayName`
unfoldable pub value_display_name : PatchOp → Option Text
value_display_name op =
    if truthy op.path
    then (if text_eq (lowered_path op) (codes "displayname")
        then text_value (some op.value)
        else none)
    else elim op.value [
      | object fields ↦ text_value (field_of (codes "displayName") fields)
      | _ ↦ none
    ]
