-- ===== src/Tests/Settings.antt =====
-- The settings of two organizations.
use justmail.Prelude.{
  ok, if◌then◌else◌, ◌==◌, ℕ, ◌≡◌, true, List, [], ◌∷◌, some, Option, String, Text, codes, text_eq,
  refl, All, ◌==◌,
}
use justmail.Store.{admin, Db}
use justmail.Orgs.{require_role, find_role}
use justmail.Prelude.Texts.{starts_with}
use justmail.Settings.{
  SettingRow, AttachmentLimits, like_in, org_scope, list, upsert, attachment_limits,
  attachment_limits_key,
}
use justmail.Settings.Scope.{list_scoped, attachment_limits-upsert}
use justmail.Tests.Data.{value, actor, office}

abbrev name_of : ℕ → Text
name_of org = if org == 1 then codes "1a" else codes "2b"

abbrev setting : Text → ℕ → SettingRow ℕ
setting key value = record { key = key; value = value; updated_by = 1; updated_at = 0 }

abbrev stored : List (SettingRow ℕ)
stored =
    setting (codes "org:1a.theme") 1
    ∷ setting (codes "org:2b.attachments") 9
    ∷ setting (codes "webmail.session:5") 3
    ∷ []

abbrev shown : List (SettingRow ℕ)
shown = value [] (list name_of (λ a b. true) 5 1 3 (some (codes "org:1a.%")) stored office)

list_scoped_example : All (λ r. starts_with r.key (org_scope name_of 1) ≡ true) shown
unfolding list require_role find_role like_in starts_with text_eq
list_scoped_example =
    list_scoped name_of (λ a b. true) 5 1 3 (some (codes "org:1a.%")) stored shown office refl refl

abbrev floor_of : ℕ → String → Option ℕ
floor_of n name = some n

abbrev defaults : AttachmentLimits
defaults = record { max_total_bytes = 100; max_count = 10 }

attachment_limits-upsert_example :
    (settings' : List (SettingRow ℕ)) × (db' : Db) × (upsert 5
        (actor 2)
        1
        (attachment_limits_key name_of 2)
        1
        stored
        office
      ≡ ok (settings', db'))
    × (attachment_limits name_of floor_of defaults 2 settings'
        ≡ record { max_total_bytes = 1; max_count = 1 })
unfolding require_role find_role
attachment_limits-upsert_example =
    attachment_limits-upsert name_of floor_of defaults 5 (actor 2) 1 2 admin 1 stored office refl
