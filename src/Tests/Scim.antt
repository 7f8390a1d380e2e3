-- ===== src/Tests/Scim.antt =====
-- Requests of a directory, and of the administrators that connect it.
use justmail.Prelude.{ok}
use justmail.Prelude.Regex.{match}
use justmail.Prelude.Texts.{trim, includes, is_space}
use justmail.Tests.Data.{person}
use justmail.Prelude.{Bool, List, ◌↔◌, ◌⊎◌}
use justmail.Prelude.{
  ℕ, ◌≡◌, true, false, [], ◌∷◌, none, some, Option, Text, codes, text_eq, refl, err, unauthorized,
  if◌then◌else◌, arith, ◌==◌, not, ◌&&◌,
}
use justmail.Prelude.Table.{first?, has}
use justmail.Store.{
  Role, owner, admin, member, Db, ScimConfigRow, ScimUserRow, ScimGroupRow, member_at,
}
use justmail.Orgs.{require_role, find_role}
use justmail.Orgs.Members.{new_member}
use justmail.Orgs.Members.Owners.{owners}
use justmail.Scim.{ScimContext, ScimConfigRequest, update_config, authenticate, revoke_token}
use justmail.Scim.Wire.{primary_email, ScimUser, ScimGroup, parse_eq_filter, member_from_path}
use justmail.Scim.Users.{create_user, is_suspended, load_user}
use justmail.Scim.Rows.{names_of, add_members, group_names}
use justmail.Scim.Groups.{create_group, recompute_roles, role_of}
use justmail.Ldap.{normalize_dn, resolve_role}
use justmail.Scim.Isolation.{Run-isolated, done, more, user_created, group_created}
use justmail.Scim.Owners.{create_group-role_of, create_group_orphans}
use justmail.Scim.Accounts.{create_user_suspends, create_user-update_config}
use justmail.Scim.Tokens.{authenticate-revoke_token}
use justmail.Tests.Data.{value, actor, office}

abbrev settings : Role → ScimConfigRow
settings role = record {
  org_id = 1;
  enabled = true;
  token_hash = some (codes "t0k");
  token_prefix = none;
  default_role = role;
  group_role_map = (codes "ops", admin) ∷ [];
  deactivate = true;
  last_request_at = none;
}

abbrev provisioned : ScimUserRow
provisioned = record {
  id = 10;
  org_id = 1;
  user_id = 1;
  external_id = none;
  user_name = codes "a@ex.org";
  active = true;
  raw = [];
}

abbrev directory : Db
directory = record office { scim_configs = settings member ∷ []; scim_users = provisioned ∷ [] }

abbrev context : ScimContext
context = record { org_id = 1; config = settings member }

abbrev id_of : Text → Option ℕ
id_of s = if text_eq s (codes "u10") then some 10 else none

abbrev body : Text → Option Bool → ScimUser
body name active = record {
  external_id = none;
  user_name = some name;
  name = none;
  display_name = none;
  emails = [];
  active = active;
}

abbrev group : Text → ScimGroup
group name = record { external_id = none; display_name = some name; members = codes "u10" ∷ [] }

abbrev no_group : ScimGroupRow
no_group = record { id = 0; org_id = 0; external_id = none; display_name = [] }

parses :
    parse_eq_filter (some (codes " userName  eq \"a@ex.org\" "))
    ≡ some (codes "userName", codes "a@ex.org")
unfolding parse_eq_filter text_eq is_space match
parses = refl

finds : member_from_path (some (codes "members[value eq \"u10\"]")) ≡ some (codes "u10" ∷ [])
unfolding member_from_path text_eq match is_space
finds = refl

abbrev hired : ScimUserRow × Db
hired =
    value (provisioned, directory)
      (create_user text_eq context 11 90 (body (codes "n@ex.org") none) directory)

abbrev grouped : ScimGroupRow × Db
grouped =
    value (no_group, hired.1) (create_group (λ s. s) id_of context 30 (group (codes "ops")) hired.1)

Run-isolated_example :
    first? (member_at 2 1) grouped.1.members ≡ first? (member_at 2 1) directory.members
unfolding create_user create_group text_eq trim includes primary_email
Run-isolated_example =
    Run-isolated text_eq (λ s. s) (λ j. []) id_of context directory grouped.1 2 1 (omega arith)
      (more _ hired.1 _
        (more _ directory _ (done _)
          (user_created 11 90 (body (codes "n@ex.org") none) hired.0 refl))
        (group_created 30 (group (codes "ops")) grouped.0 refl))

create_group-role_of_example :
    (names : List Text) × (first? (member_at 1 1) grouped.1.members
      ≡ some (new_member 1 1 (resolve_role (λ s. s) names ((codes "ops", admin) ∷ []) member)))
    × ((x : Text)
        → (has (λ y. text_eq y x) names ≡ true)
          ↔ ((has (λ y. text_eq y x) (names_of 1 1 hired.1) ≡ true) ⊎ (x ≡ codes "ops")))
unfolding create_group create_user load_user text_eq trim includes primary_email
create_group-role_of_example =
    create_group-role_of (λ s. s) id_of context 30 10 (group (codes "ops")) grouped.0 hired.1
      grouped.1 provisioned refl refl refl refl

grouped_role : role_of (λ s. s) context 1 grouped.1 ≡ admin
unfolding create_group create_user text_eq resolve_role group_names recompute_roles add_members trim
    includes primary_email normalize_dn
grouped_role = refl

create_group_orphans_example : owners 1 grouped.1.members ≡ 0
unfolding create_group create_user load_user text_eq resolve_role group_names recompute_roles
    add_members trim includes primary_email normalize_dn
create_group_orphans_example =
    create_group_orphans (λ s. s) id_of context 30 10 (group (codes "ops")) grouped.0 (codes "u10")
      hired.1 grouped.1 provisioned refl refl refl (refl, (refl, (refl, (refl, tt)))) refl refl refl
      refl

abbrev dismissed : ScimUserRow × Db
dismissed =
    value (provisioned, directory)
      (create_user text_eq context 11 90 (body (codes "d@ex.org") (some false)) directory)

create_user_suspends_example :
    (dismissed.0.user_id ≡ 4)
    × (has (λ u. u.id == 4 && not (is_suspended u.status)) dismissed.1.users ≡ false)
unfolding create_user text_eq primary_email trim includes
create_user_suspends_example =
    create_user_suspends text_eq context 11 90 (body (codes "d@ex.org") (some false)) dismissed.0
      (person 4 (codes "d@ex.org")) directory dismissed.1 refl refl refl

abbrev owning : ScimConfigRequest
owning = record { enabled = true; default_role = owner; group_role_map = []; deactivate = true }

create_user-update_config_example :
    (c : ScimConfigRow) × (ctx : ScimContext) × (row : ScimUserRow) × (set : Db) × (opened : Db)
    × (db' : Db) × (update_config 5 (actor 2) 1 owning directory ≡ ok (c, set))
    × (authenticate (λ s. s) 6 1 (codes "t0k") set ≡ ok (ctx, opened))
    × (create_user text_eq ctx 11 90 (body (codes "d@ex.org") none) opened ≡ ok (row, db'))
    × (first? (member_at 1 4) db'.members ≡ some (new_member 1 4 owner))
unfolding require_role find_role text_eq trim includes primary_email
create_user-update_config_example =
    create_user-update_config (λ s. s) text_eq 5 6 (actor 2) 1 owning (settings member)
      (codes "t0k") b't' (codes "0k") 11 90 (body (codes "d@ex.org") none)
      (person 4 (codes "d@ex.org")) directory refl refl refl refl refl refl refl refl refl refl refl
      refl

abbrev cut_off : Db
cut_off = value office (revoke_token 7 (actor 2) 1 directory)

authenticate-revoke_token_example :
    authenticate (λ s. s) 8 1 (codes "t0k") cut_off ≡ err (unauthorized "SCIM not enabled")
unfolding revoke_token require_role find_role
authenticate-revoke_token_example =
    authenticate-revoke_token (λ s. s) 7 8 (actor 2) 1 (codes "t0k") directory cut_off refl
