-- ===== src/Settings/Scope.antt =====
-- Which settings the methods of apps/api/src/settings/settings.service.ts show and write.
use justmail.Prelude.{sym}
use justmail.Settings.{set_value, or}
use justmail.Settings.{set_value, insert_row}
use justmail.Settings.{set_value, by_key}
use justmail.Prelude.{
  ℕ, ◌≡◌, Bool, true, false, List, [], ◌∷◌, ◌++◌, Option, none, some, String, Text, codes, text_eq,
  arith, ◌==◌, ok, refl, text_eq_refl, ◌||◌, ◌&&◌, not, All, inl, inr, Bool-cases,
}
use justmail.Prelude.Table.{select, modify, first?, has, select_lem}
use justmail.Prelude.Texts.{starts_with}
use justmail.Store.{Role, admin, Db, Principal, log}
use justmail.Orgs.{require_role}
use justmail.Settings.{
  set_value, SettingRow, AttachmentLimits, like_in, org_scope, scoped, list, upsert,
  attachment_limits, attachment_limits_key, put,
}

-- A unit that LIKE reads as itself.
abbrev pub is_plain : ℕ → Bool
is_plain c = not (c == b'%' || c == b'_' || c == b'\\')

abbrev pub all_plain : Text → Bool
all_plain [] = true
all_plain (c ∷ s) = is_plain c && all_plain s

like-starts_with :
    (q p s : Text)
    → all_plain q ≡ true
    → starts_with p q ≡ true
    → like_in false p s ≡ true
    → starts_with s q ≡ true
unfolding like_in starts_with
like-starts_with [] p s plain h k = refl
like-starts_with (c ∷ q) [] s plain h k = absurd (ground arith)
like-starts_with (c ∷ q) (d ∷ p) [] plain h k = absurd (ground arith)
like-starts_with (c ∷ q) (d ∷ p) (e ∷ s) plain h k = ground (arith, like-starts_with q p s)

starts_with-append : (s t : Text) → starts_with (s ++ t) s ≡ true
unfolding starts_with
starts_with-append [] t = refl
starts_with-append (c ∷ s) t = ground (arith, starts_with-append s t)

starts_with-more : (p q t : Text) → starts_with p q ≡ true → starts_with (p ++ t) q ≡ true
unfolding starts_with
starts_with-more p [] t h = refl
starts_with-more [] (c ∷ q) t h = absurd (ground arith)
starts_with-more (d ∷ p) (c ∷ q) t h = ground (arith, starts_with-more p q t)

scoped-starts_with :
    (scope : Text) (prefix : Option Text)
    → starts_with (scoped scope prefix ++ codes "%") scope ≡ true
scoped-starts_with scope none = starts_with-append scope (codes "%")
scoped-starts_with scope (some prefix) = elim (Bool-cases (starts_with prefix scope)) [
  | inl narrows ↦ rw narrows (starts_with-more prefix scope (codes "%") narrows)
  | inr other ↦ rw other (starts_with-append scope (codes "%"))
]

module _ {ℓ} {V : Type ℓ} where
  insert_row-All :
      (P : SettingRow V → Type 0) (before : Text → Text → Bool) (r : SettingRow V)
      (rows : List (SettingRow V))
      → P r
      → All P rows
      → All P (insert_row before r rows)
  insert_row-All P before r [] h k = (h, tt)
  insert_row-All P before r (x ∷ rows) h (k, rest) = elim (Bool-cases (before x.key r.key)) [
    | inl first ↦ rw first (k, insert_row-All P before r rows h rest)
    | inr last ↦ rw last (h, (k, rest))
  ]

  by_key-All :
      (P : SettingRow V → Type 0) (before : Text → Text → Bool) (rows : List (SettingRow V))
      → All P rows
      → All P (by_key before rows)
  by_key-All P before [] h = tt
  by_key-All P before (r ∷ rows) (h, rest) =
      insert_row-All P before r (by_key before rows) h (by_key-All P before rows rest)

  -- A listing shows only keys in the organization's own namespace, whatever prefix is asked for and
  -- whatever wildcards it has, where the text of the organization's id has none.
  pub list_scoped :
      (uuid_text : ℕ → Text) (before : Text → Text → Bool) (now org user : ℕ) (prefix : Option Text)
      (settings shown : List (SettingRow V)) (db : Db)
      → all_plain (org_scope uuid_text org) ≡ true
      → list uuid_text before now org user prefix settings db ≡ ok shown
      → All (λ r. starts_with r.key (org_scope uuid_text org) ≡ true) shown
  unfolding list
  list_scoped uuid_text before now org user prefix settings shown db plain h =
      let scope = org_scope uuid_text org in
      let pattern = scoped scope prefix ++ codes "%" in
      let is : by_key before (select (λ r. like_in false pattern r.key) settings) ≡ shown =
        ground arith in
      rw (sym is) (
        by_key-All (λ r. starts_with r.key scope ≡ true) before _
          (select_lem (λ r. starts_with r.key scope ≡ true) (λ r. like_in false pattern r.key)
            settings
            (λ r met.
              like-starts_with scope pattern r.key plain (scoped-starts_with scope prefix) met)))

  first?-modified :
      (now user : ℕ) (key : Text) (value : V) (rows : List (SettingRow V))
      → has (λ r. text_eq r.key key) rows ≡ true
      → (r : SettingRow V) × (first?
            (λ r. text_eq r.key key)
            (modify (λ r. text_eq r.key key) (set_value now user value) rows)
          ≡ some r)
        × (r.value ≡ value)
  first?-modified now user key value [] h = absurd (ground arith)
  first?-modified now user key value (x ∷ rows) h = elim (Bool-cases (text_eq x.key key)) [
    | inl here ↦ (set_value now user value x, rw here (rw here refl), refl)
    | inr there ↦
        let (r, found, is) = first?-modified now user key value rows (ground (arith, there)) in
        (r, rw there (rw there found), is)
  ]

  first?-added :
      (key : Text) (row : SettingRow V) (rows : List (SettingRow V))
      → row.key ≡ key
      → has (λ r. text_eq r.key key) rows ≡ false
      → first? (λ r. text_eq r.key key) (rows ++ row ∷ []) ≡ some row
  first?-added key row [] named h = rw named (rw (text_eq_refl key) refl)
  first?-added key row (x ∷ rows) named h = elim (Bool-cases (text_eq x.key key)) [
    | inl here ↦ absurd (ground (arith, here))
    | inr there ↦ rw there (first?-added key row rows named (ground (arith, there)))
  ]

  first?-put :
      (now user : ℕ) (key : Text) (value : V) (rows : List (SettingRow V))
      → (r : SettingRow V) × (first? (λ r. text_eq r.key key) (put now user key value rows)
          ≡ some r)
        × (r.value ≡ value)
  first?-put now user key value rows = elim (Bool-cases (has (λ r. text_eq r.key key) rows)) [
    | inl stored ↦ rw stored (first?-modified now user key value rows stored)
    | inr fresh ↦
        let row : SettingRow V = record {
          key = key;
          value = value;
          updated_by = user;
          updated_at = now;
        } in
        (row, rw fresh (first?-added key row rows refl fresh), refl)
  ]

  -- A user whose role in one organization is admin, or higher, stores a value under the key of any
  -- organization `other`, and the attachment limits of `other` are from then on those of the value,
  -- the defaults only where it has none.
  pub attachment_limits-upsert :
      (uuid_text : ℕ → Text) (floor_of : V → String → Option ℕ) (defaults : AttachmentLimits)
      (now : ℕ) (p : Principal) (org other : ℕ) (r : Role) (value : V)
      (settings : List (SettingRow V)) (db : Db)
      → require_role now org p.user_id admin db ≡ ok r
      → (settings' : List (SettingRow V)) × (db' : Db) × (upsert now p org
            (attachment_limits_key uuid_text other)
            value
            settings
            db
          ≡ ok (settings', db'))
        × (attachment_limits uuid_text floor_of defaults other settings' ≡ record {
          max_total_bytes = or (floor_of value "max_total_bytes") defaults.max_total_bytes;
          max_count = or (floor_of value "max_count") defaults.max_count;
        })
  unfolding upsert attachment_limits
  attachment_limits-upsert uuid_text floor_of defaults now p org other r value settings db allowed =
      let key = attachment_limits_key uuid_text other in
      let (row, found, same) = first?-put now p.user_id key value settings in
      (
        put now p.user_id key value settings,
        log
            (record {
              org_id = org;
              actor_id = some p.user_id;
              action = "settings.upsert";
              target_type = "setting";
              target_id = none;
            })
            db,
        rw allowed refl,
        rw found (rw same refl),
      )
