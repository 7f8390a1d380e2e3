-- ===== src/Invites/Listing.antt =====
-- `list` and `preview` of apps/api/src/invites/invites.service.ts.
use justmail.Prelude.{
  ℕ, Bool, not, List, [], Option, none, some, Text, ◌==◌, Result, ok, ◌>>=◌, ◌>>◌,
}
use justmail.Prelude.Table.{select, first?, has, newest}
use justmail.Store.{Role, admin, OrgRow, InviteRow, Db}
use justmail.Orgs.{require_role}
use justmail.Invites.{load_pending, by_email}

-- `list`, the newest first.
abbrev pub list : ℕ → ℕ → ℕ → Db → Result (List InviteRow)
list now org user db = do
  require_role now org user admin db
  ok (newest (select (λ (i : InviteRow). i.org_id == org) db.invites))

-- `InvitePreview`
pub record InvitePreview : Type 0 where
  pub org_name : Text
  pub email : Text
  pub role : Role
  pub needs_signup : Bool

abbrev name_of : Option OrgRow → Text
name_of none = []
name_of (some o) = o.name

-- `preview`
abbrev pub preview : (Text → Text) → (Text → Text → Bool) → ℕ → Text → Db → Result InvitePreview
preview sha256 same_email now token db = do
  inv ← load_pending sha256 now token db
  ok (record {
    org_name = name_of (first? (λ o. o.id == inv.org_id) db.orgs);
    email = inv.email;
    role = inv.role;
    needs_signup = not (has (by_email same_email inv.email) db.users);
  })
