-- ===== src/Tests/Orgs.antt =====
-- Requests about the organization, its members and its quota.
use justmail.Prelude.{ℕ, ◌≡◌, ◌≢◌, ◌↔◌, ◌≤◌, [], none, some, codes, text_eq, ok, refl, arith}
use justmail.Tests.Data.{value, actor, api_key, office}
use justmail.Prelude.Table.{first?}
use justmail.Store.{owner, admin, member, viewer, Db, Principal}
use justmail.Orgs.{rank, find_role, require_role, role_from_scopes}
use justmail.Orgs.Members.{remove, add_member, update_member, remove_member, guard_last_owner}
use justmail.Orgs.Members.Sound.{IsSound}
use justmail.Orgs.Members.Steps.{here, next, updates_member, removes_member, Reach-IsSound}
use justmail.Orgs.Access.{MayAct, require_role_iff, require_role_read_only}
use justmail.Orgs.Quota.{OrgQuota, set_quota, cap_of, org_at, compute_quota}
use justmail.Orgs.Quota.Bounds.{WithinQuota, set_quota-WithinQuota}

office-IsSound : IsSound office
office-IsSound = record { keyed = (refl, (refl, (refl, tt))); owned = (ground arith, tt) }

abbrev promoted : Db
promoted = value office (update_member 5 (actor 1) 1 2 owner office)

abbrev departed : Db
departed = value office (remove_member 6 (actor 2) 1 1 promoted)

Reach-IsSound_example : IsSound departed
unfolding update_member remove_member require_role find_role guard_last_owner
Reach-IsSound_example =
    Reach-IsSound text_eq (λ s. s) {db = office} {db' = departed} office-IsSound
      (next {mid = promoted} (next {mid = office} here (updates_member 5 (actor 1) 1 2 owner refl))
        (removes_member 6 (actor 2) 1 1 refl))

abbrev joined : Db
joined = value office (add_member text_eq 5 (actor 1) 1 (codes "d@ex.org") owner office)

abbrev bare : Db
bare = record office { domains = [] }

abbrev closed : Db
closed = value bare (remove 5 (actor 1) 1 bare)

require_role_iff_example :
    (require_role 5 1 2 member office ≡ ok admin)
    ↔ (MayAct 5 1 2 office admin × (rank member ≤ rank admin))
require_role_iff_example = require_role_iff 5 1 2 member admin office

require_role_read_only_example : (api_key.org_id ≡ 1) × (viewer ≡ viewer) × (viewer ≡ viewer)
unfolding require_role find_role role_from_scopes
require_role_read_only_example =
    require_role_read_only 5 1 60 viewer office api_key viewer refl refl
      (λ h. absurd (ground arith)) refl refl refl

abbrev webmail : Principal
webmail = record { user_id = 9; mailbox_id = some 20; org_id = some 1 }

abbrev no_usage : OrgQuota
no_usage = record {
  org_id = 0;
  storage_quota_mb = none;
  allocated_mb = 0;
  used_bytes = 0;
  mailbox_count = 0;
}

abbrev set_result : OrgQuota × Db
set_result = value (no_usage, office) (set_quota 5 (actor 2) 1 (some 700) office)

set_quota-WithinQuota_example :
    (cap_of (first? (org_at 1) set_result.1.orgs) ≡ some 700)
    × WithinQuota 1 set_result.1
    × ((other : ℕ) → other ≢ 1 → WithinQuota other office → WithinQuota other set_result.1)
unfolding set_quota compute_quota require_role find_role
set_quota-WithinQuota_example =
    set_quota-WithinQuota 5 (actor 2) 1 (some 700) office set_result.1 set_result.0 refl
