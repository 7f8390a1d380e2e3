-- ===== src/Tests/ApiKeys.antt =====
-- A new key of an organization, and a revoked one.
use justmail.Prelude.{◌≡◌, [], ◌∷◌, some, Text, codes, text_eq, refl, err, unauthorized, not_found}
use justmail.Store.{member, KeyRow, Db}
use justmail.Orgs.{require_role, find_role}
use justmail.ApiKeys.{create, revoke, resolve}
use justmail.ApiKeys.Lifecycle.{revoke_closes}
use justmail.Tests.Data.{value, actor, api_key, office}

abbrev key_with_token : (KeyRow × Text) × Db
key_with_token =
    value ((api_key, []), office)
      (create (λ s. s) 5 61 (codes "jm_0123456789") (actor 1) 1 (codes "ci") ("write" ∷ [])
        (some 90) office)

abbrev closed : Db
closed = value office (revoke 6 (actor 2) 1 60 office)

revoke_closes_example :
    (resolve (λ s. s) 7 (codes "jm_reader0key") closed ≡ err (unauthorized "API key revoked"))
    × (require_role 7 1 60 member closed ≡ err (not_found "Organization not found"))
unfolding revoke require_role find_role text_eq
revoke_closes_example =
    revoke_closes (λ s. s) 6 (actor 2) 1 api_key (codes "jm_reader0key") office closed 7 member refl
      refl refl refl
