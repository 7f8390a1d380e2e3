-- ===== src/Scim/Tokens.antt =====
-- Which requests `authenticate` of apps/api/src/scim/scim.service.ts admits.
use justmail.Prelude.{inr}
use justmail.Prelude.{inl}
use justmail.Prelude.{Option-cases}
use justmail.Prelude.{take}
use justmail.Prelude.{
  ℕ, ◌≡◌, true, false, List, [], ◌∷◌, Option, none, some, Text, arith, if◌then◌else◌, ok, err,
  unauthorized, text_eq_refl, refl, ◌++◌, inl, inr, Option-cases, take,
}
use justmail.Prelude.Table.{modify, first?, has}
use justmail.Store.{ScimConfigRow, Db, Principal}
use justmail.Scim.{
  config_of, generate_token, revoke_token, authenticate, set_token, seen_at, with_config,
  ensure_config, new_config, config_or_new,
}

first?-set_token :
    (org : ℕ) (hash prefix : Option Text) (cs : List ScimConfigRow) (c : ScimConfigRow)
    → first? (config_of org) cs ≡ some c
    → first? (config_of org) (modify (config_of org) (set_token hash prefix) cs)
      ≡ some (set_token hash prefix c)
first?-set_token org hash prefix [] c h = cc
first?-set_token org hash prefix (x ∷ cs) c h =
    ground (arith, first?-set_token org hash prefix cs c)

first?-no_config :
    (org : ℕ) (hash prefix : Option Text) (cs : List ScimConfigRow)
    → first? (config_of org) cs ≡ none
    → first? (config_of org) (modify (config_of org) (set_token hash prefix) cs) ≡ none
first?-no_config org hash prefix [] h = refl
first?-no_config org hash prefix (x ∷ cs) h = ground (arith, first?-no_config org hash prefix cs)

has-config :
    (org : ℕ) (cs : List ScimConfigRow) (c : ScimConfigRow)
    → first? (config_of org) cs ≡ some c
    → has (config_of org) cs ≡ true
has-config org [] c h = absurd (ground arith)
has-config org (x ∷ cs) c h = ground (arith, has-config org cs c)

no-config :
    (org : ℕ) (cs : List ScimConfigRow)
    → first? (config_of org) cs ≡ none
    → (has (config_of org) cs ≡ false)
      × (first? (config_of org) (cs ++ new_config org ∷ []) ≡ some (new_config org))
no-config org [] h = ground arith
no-config org (x ∷ cs) h = ground (arith, no-config org cs)

-- The configuration is there once it was ensured, with the stored values where there were some.
pub first?-ensure_config :
    (org : ℕ) (db : Db)
    → first? (config_of org) (ensure_config org db).scim_configs
      ≡ some (config_or_new org (first? (config_of org) db.scim_configs))
unfolding ensure_config
first?-ensure_config org db = elim (Option-cases (first? (config_of org) db.scim_configs)) [
  | inl absent ↦ ground (arith, no-config org db.scim_configs absent)
  | inr (c, found) ↦ ground (arith, has-config org db.scim_configs c found)
]

-- A token that was just generated is admitted for its organization, with the configuration it had,
-- where the directory is enabled, and is refused where it is disabled.
pub authenticate-generate_token :
    (sha256 : Text → Text) (now later : ℕ) (token : Text) (p : Principal) (org : ℕ) (db db' : Db)
    (shown : Text) (d : ℕ) (hash : Text)
    → sha256 token ≡ d ∷ hash
    → generate_token sha256 now token p org db ≡ ok (shown, db')
    → authenticate sha256 later org shown db' ≡ (
        let c =
          set_token
            (some (d ∷ hash))
            (some (take 12 token))
            (config_or_new org (first? (config_of org) db.scim_configs)) in
        if c.enabled
        then ok (record { org_id = org; config = c }, with_config org (seen_at later) db')
        else err (unauthorized "SCIM not enabled"))
unfolding generate_token authenticate
authenticate-generate_token sha256 now later token p org db db' shown d hash hashed h = ground (
  arith,
  text_eq_refl (d ∷ hash),
  first?-ensure_config org db,
  first?-set_token org (some (d ∷ hash)) (some (take 12 token)) (ensure_config org db).scim_configs
      (config_or_new org (first? (config_of org) db.scim_configs)),
)

-- After a revocation every token, the former one included, is refused for the organization, until
-- another is generated.
pub authenticate-revoke_token :
    (sha256 : Text → Text) (now later : ℕ) (p : Principal) (org : ℕ) (token : Text) (db db' : Db)
    → revoke_token now p org db ≡ ok db'
    → authenticate sha256 later org token db' ≡ err (unauthorized "SCIM not enabled")
unfolding revoke_token authenticate
authenticate-revoke_token sha256 now later p org token db db' h =
    elim (Option-cases (first? (config_of org) db.scim_configs)) [
      | inl absent ↦ ground (arith, first?-no_config org none none db.scim_configs absent)
      | inr (c, found) ↦ ground (arith, first?-set_token org none none db.scim_configs c found)
    ]
