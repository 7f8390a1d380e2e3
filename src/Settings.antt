-- ===== src/Settings.antt =====
-- apps/api/src/settings/settings.service.ts. `uuid_text` is the text of an id; `floor_of` is the floor of a
-- field of a JSON value where that is a finite number above 0, `before` the collation of the database.
pub mod Scope
use justmail.Prelude.{
  ℕ, Bool, true, false, not, ◌&&◌, ◌||◌, List, [], ◌∷◌, ◌++◌, Option, none, some, String, Text,
  codes, text_eq, ◌==◌, if◌then◌else◌, Result, ok, ◌>>=◌, ◌>>◌,
}
use justmail.Prelude.Table.{select, modify, first?, has}
use justmail.Prelude.Texts.{starts_with}
use justmail.Store.{viewer, admin, Db, Principal, log}
use justmail.Orgs.{require_role}

pub record SettingRow {ℓ} (V : Type ℓ) : Type ℓ where
  pub key : Text
  pub value : V
  pub updated_by : ℕ
  pub updated_at : ℕ

-- `AttachmentLimits`
pub record AttachmentLimits : Type 0 where
  pub max_total_bytes : ℕ
  pub max_count : ℕ

abbrev pub any_tail : (Text → Bool) → Text → Bool
any_tail f [] = f []
any_tail f (c ∷ s) = f (c ∷ s) || any_tail f s

abbrev pub unit_then : (ℕ → Bool) → (Text → Bool) → Text → Bool
unit_then p f [] = false
unit_then p f (c ∷ s) = p c && f s

abbrev pub is_nothing : Text → Bool
is_nothing [] = true
is_nothing (c ∷ s) = false

-- `s LIKE pattern`, behind a backslash or not.
unfoldable pub like_in : Bool → Text → Text → Bool
like_in escaped [] s = not escaped && is_nothing s
like_in true (c ∷ p) s = unit_then (λ d. d == c) (like_in false p) s
like_in false (c ∷ p) s =
    if c == b'\\'
    then like_in true p s
    else if c == b'%'
    then any_tail (like_in false p) s
    else if c == b'_'
    then unit_then (λ d. true) (like_in false p) s
    else unit_then (λ d. d == c) (like_in false p) s

abbrev pub org_scope : (ℕ → Text) → ℕ → Text
org_scope uuid_text org = codes "org:" ++ uuid_text org ++ codes "."

abbrev pub scoped : Text → Option Text → Text
scoped scope none = scope
scoped scope (some prefix) = if starts_with prefix scope then prefix else scope

-- `ATTACHMENT_LIMITS_KEY`
abbrev pub attachment_limits_key : (ℕ → Text) → ℕ → Text
attachment_limits_key uuid_text org = codes "org:" ++ uuid_text org ++ codes ".attachments"

module _ {ℓ} {V : Type ℓ} (before : Text → Text → Bool) where
  abbrev pub insert_row : SettingRow V → List (SettingRow V) → List (SettingRow V)
  insert_row r [] = r ∷ []
  insert_row r (x ∷ rows) =
      let later = insert_row r rows in if before x.key r.key then x ∷ later else r ∷ x ∷ rows

  -- `ORDER BY key`
  abbrev pub by_key : List (SettingRow V) → List (SettingRow V)
  by_key [] = []
  by_key (r ∷ rows) = insert_row r (by_key rows)

abbrev pub or : Option ℕ → ℕ → ℕ
or none fallback = fallback
or (some n) fallback = n

abbrev pub limit {ℓ} :
    {V : Type ℓ} → (V → String → Option ℕ) → String → ℕ → Option (SettingRow V) → ℕ
limit floor_of name fallback none = fallback
limit floor_of name fallback (some r) = or (floor_of r.value name) fallback

module _ {ℓ} {V : Type ℓ} (uuid_text : ℕ → Text) where
  -- `list`
  unfoldable pub list :
      (Text → Text → Bool)
      → ℕ
      → ℕ
      → ℕ
      → Option Text
      → List (SettingRow V)
      → Db
      → Result (List (SettingRow V))
  list before now org user prefix settings db = do
    require_role now org user viewer db
    let pattern = scoped (org_scope uuid_text org) prefix ++ codes "%"
    ok (by_key before (select (λ r. like_in false pattern r.key) settings))

  -- `attachmentLimits`, where `defaults` is the configuration.
  unfoldable pub attachment_limits :
      (V → String → Option ℕ) → AttachmentLimits → ℕ → List (SettingRow V) → AttachmentLimits
  attachment_limits floor_of defaults org settings =
      let row = first? (λ r. text_eq r.key (attachment_limits_key uuid_text org)) settings in
      record {
        max_total_bytes = limit floor_of "max_total_bytes" defaults.max_total_bytes row;
        max_count = limit floor_of "max_count" defaults.max_count row;
      }

module _ {ℓ} {V : Type ℓ} where
  abbrev pub set_value : ℕ → ℕ → V → SettingRow V → SettingRow V
  set_value now user value r = record r { value = value; updated_by = user; updated_at = now }

  abbrev pub put : ℕ → ℕ → Text → V → List (SettingRow V) → List (SettingRow V)
  put now user key value rows =
      if has (λ r. text_eq r.key key) rows
      then modify (λ r. text_eq r.key key) (set_value now user value) rows
      else rows ++ record { key = key; value = value; updated_by = user; updated_at = now } ∷ []

  -- `upsert`
  unfoldable pub upsert :
      ℕ → Principal → ℕ → Text → V → List (SettingRow V) → Db → Result (List (SettingRow V) × Db)
  upsert now p org key value settings db = do
    require_role now org p.user_id admin db
    ok (
      put now p.user_id key value settings,
      log
          (record {
            org_id = org;
            actor_id = some p.user_id;
            action = "settings.upsert";
            target_type = "setting";
            target_id = none;
          })
          db,
    )
