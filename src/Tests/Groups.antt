-- ===== src/Tests/Groups.antt =====
-- A mail group whose members are set.
use justmail.Prelude.{◌≡◌, List, true, false, [], ◌∷◌, none, codes, text_eq, refl}
use justmail.Prelude.Texts.{trim}
use justmail.Store.{GroupRow, GroupMemberRow, Db}
use justmail.Orgs.{require_role, find_role}
use justmail.Groups.{
  MailGroupDetail, get, join_domains, load_members, dedupe, insert_members, set_members,
}
use justmail.Groups.Sets.{members_of, run, replace, named, by_set_members, Change-run}
use justmail.Tests.Data.{value, actor, office_domain, office}

abbrev team : GroupRow
team = record {
  id = 95;
  domain_id = 7;
  local_part = codes "team";
  name = codes "Team";
  description = none;
  enabled = true;
  allow_member_send = false;
}

abbrev with_team : Db
with_team = record office { groups = team ∷ [] }

abbrev as_stored : List GroupMemberRow → List GroupMemberRow
as_stored rows = rows

abbrev no_detail : MailGroupDetail
no_detail = record {
  group = record { row = team; domain = office_domain; member_count = 0 };
  members = [];
}

abbrev set : MailGroupDetail × Db
set =
    value (no_detail, with_team)
      (set_members as_stored 5 (actor 2) 1 95 (codes " A@ex.org" ∷ codes "a@ex.org" ∷ []) with_team)

Change-run_example :
    members_of set.1 95 (codes "a@ex.org")
    ≡ run
        (replace 95 (named (codes " A@ex.org" ∷ codes "a@ex.org" ∷ [])))
        (members_of with_team)
        95
        (codes "a@ex.org")
unfolding set_members get join_domains load_members dedupe insert_members require_role find_role
    text_eq trim
Change-run_example =
    Change-run as_stored with_team set.1
      (replace 95 (named (codes " A@ex.org" ∷ codes "a@ex.org" ∷ [])))
      (by_set_members 5 (actor 2) 1 95 (codes " A@ex.org" ∷ codes "a@ex.org" ∷ []) set.0 refl) 95
      (codes "a@ex.org")
