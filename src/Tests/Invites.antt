-- ===== src/Tests/Invites.antt =====
-- Invites that wait for their acceptance.
use justmail.Prelude.{
  ℕ, ◌≡◌, ◌≢◌, ◌⊎◌, [], ◌∷◌, some, Text, codes, text_eq, ok, err, bad_request, refl,
}
use justmail.Prelude.Table.{first?}
use justmail.Store.{member, viewer, InviteRow, Db, member_at}
use justmail.Orgs.Members.{new_member}
use justmail.Orgs.Members.Owners.{IsKeyed, owners}
use justmail.Invites.{create, accept, load_pending, revoke, new_invite, user_for, by_email}
use justmail.Invites.Pending.{accept_once}
use justmail.Invites.Acceptance.{accept-member, accept-loses_owner}
use justmail.Tests.Data.{person, value, actor, office}

abbrev digest : Text → Text
digest token = token

abbrev waiting : InviteRow
waiting = new_invite 0 50 1 1 (codes "d@ex.org") member (codes "tok")

abbrev asked : Db
asked = record office { invites = waiting ∷ [] }

abbrev accepted : ℕ × Db
accepted = value (0, asked) (accept digest text_eq 9 80 (codes "tok") (codes "D") (codes "h") asked)

accept_once_example :
    accept digest text_eq 10 81 (codes "tok") (codes "E") (codes "i") accepted.1
    ≡ err (bad_request "Invite already used")
unfolding accept load_pending text_eq
accept_once_example =
    accept_once digest text_eq 9 80 (codes "tok") (codes "D") (codes "h") asked accepted.1
      accepted.0 10 81 (codes "E") (codes "i") refl

accept-member_example :
    (inv : InviteRow) × (load_pending digest 9 (codes "tok") asked ≡ ok inv)
    × (accepted.0 ≡ user_for 80 (first? (by_email text_eq inv.email) asked.users))
    × (first? (member_at inv.org_id accepted.0) accepted.1.members
        ≡ some (new_member inv.org_id accepted.0 inv.role))
    × ((o u : ℕ)
        → (o ≢ inv.org_id) ⊎ (u ≢ accepted.0)
        → first? (member_at o u) accepted.1.members ≡ first? (member_at o u) asked.members)
    × (IsKeyed asked.members → IsKeyed accepted.1.members)
unfolding accept load_pending text_eq
accept-member_example =
    accept-member digest text_eq 9 80 (codes "tok") (codes "D") (codes "h") asked accepted.1
      accepted.0 refl

abbrev invited : InviteRow × Db
invited =
    value (waiting, office)
      (create digest text_eq 9 51 (codes "new") (actor 1) 1 (codes "e@ex.org") member office)

abbrev revoked : Db
revoked = value asked (revoke 9 (actor 1) 1 50 asked)

-- An invite of the only owner, as a viewer.
abbrev trap : InviteRow
trap = new_invite 0 52 1 2 (codes "a@ex.org") viewer (codes "trap")

abbrev risky : Db
risky = record office { invites = trap ∷ [] }

accept-loses_owner_example :
    (db' : Db) × (accept digest text_eq 9 80 (codes "trap") (codes "A") (codes "h") risky
      ≡ ok (1, db'))
    × (owners 1 db'.members ≡ 0)
unfolding load_pending text_eq
accept-loses_owner_example =
    accept-loses_owner digest text_eq 9 80 (codes "trap") (codes "A") (codes "h") risky trap
      (person 1 (codes "a@ex.org")) (refl, (refl, (refl, tt))) refl refl refl refl refl
