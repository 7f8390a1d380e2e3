-- ===== src/Orgs.antt =====
-- apps/api/src/orgs/orgs.service.ts. A method takes the database and answers the next one, or the
-- problem that it throws. `now` is the database's clock, and a fresh uuid is an argument of the
-- operation that inserts it.
pub mod Members
pub mod Quota
pub mod Access
pub mod Listing
use justmail.Prelude.{
  ℕ, Bool, true, false, not, ◌&&◌, ◌||◌, List, [], ◌∷◌, Option, none, some, String, ltb, ◌==◌, ◌≐◌,
  if◌then◌else◌, Result, ok, err, forbidden, not_found, ◌>>=◌, ◌>>◌, throw_if,
}
use justmail.Prelude.Table.{first?}
use justmail.Store.{Role, owner, admin, member, viewer, MemberRow, KeyRow, Db, Principal, member_at}

-- `ROLE_RANK`
abbrev pub rank : Role → ℕ
rank owner = 3
rank admin = 2
rank member = 1
rank viewer = 0

abbrev pub includes : String → List String → Bool
includes s [] = false
includes s (t ∷ ts) = t ≐ s || includes s ts

unfoldable pub role_from_scopes : List String → Role
role_from_scopes [] = admin
role_from_scopes (s ∷ scopes) =
    if includes "admin" (s ∷ scopes)
    then admin
    else if includes "write" (s ∷ scopes)
    then member
    else viewer

abbrev pub is_none {ℓ} : {A : Type ℓ} → Option A → Bool
is_none none = true
is_none (some a) = false

-- `expires_at IS NULL OR expires_at > now()`
abbrev unexpired : ℕ → Option ℕ → Bool
unexpired now none = true
unexpired now (some t) = ltb now t

abbrev pub live_key : ℕ → ℕ → KeyRow → Bool
live_key now id k = k.id == id && is_none k.revoked_at && unexpired now k.expires_at

abbrev role_of_key : ℕ → Option KeyRow → Option Role
role_of_key org none = none
role_of_key org (some k) = if k.org_id == org then some (role_from_scopes k.scopes) else none

-- The role that `requireRole` finds: that of the member's row, else that of a live API key.
unfoldable pub find_role : ℕ → ℕ → ℕ → Db → Option Role
find_role now org user db = elim (first? (member_at org user) db.members) [
  | some m ↦ some m.role
  | none ↦ role_of_key org (first? (live_key now user) db.keys)
]

abbrev at_least : Role → Option Role → Result Role
at_least min none = err (not_found "Organization not found")
at_least min (some role) =
    if ltb (rank role) (rank min) then err (forbidden "Insufficient role") else ok role

unfoldable pub require_role : ℕ → ℕ → ℕ → Role → Db → Result Role
require_role now org user min db = at_least min (find_role now org user db)

abbrev same_id : Option ℕ → ℕ → Bool
same_id none id = false
same_id (some i) id = i == id

unfoldable pub require_org_access : ℕ → Principal → ℕ → Role → Db → Result (Unit {0})
require_org_access now p org min db =
    if not (is_none p.mailbox_id) && same_id p.org_id org
    then throw_if (ltb (rank member) (rank min)) (forbidden "Insufficient role")
    else (do require_role now org p.user_id min db; ok tt)
