-- ===== src/Retention.antt =====
-- apps/api/src/retention/legal-hold.service.ts and retention.service.ts, over the tables of `Store`.
-- The IMAP server behind `MasterImap` is a parameter: a type of mail stores with the client's calls.
-- The `get` that closes `create` of a hold reads the new row back, which is the answer here.
pub mod Holds
pub mod Listing
pub mod Pruning
pub mod Spared
pub mod Keeps
pub mod Policies
use justmail.Prelude.{
  ℕ, ◌+◌, ◌-◌, ◌*◌, Bool, true, false, not, ◌&&◌, ◌||◌, List, [], ◌∷◌, ◌++◌, Option, none, some,
  Text, String, ltb, ◌==◌, if◌then◌else◌, Result, ok, err, not_found, conflict, ◌>>=◌, ◌>>◌,
  throw_if,
}
use justmail.Prelude.Table.{select, modify, first?, has}
use justmail.Store.{admin, active, Status, MailboxRow, DomainRow, HoldRow, PolicyRow, Db, Principal}
use justmail.Orgs.{require_role, is_none}
use justmail.Orgs.Members.{user_event}
use justmail.Orgs.Quota.{of_org}
use justmail.Mailboxes.{domain_at, address, Joined}

-- `assertMailbox`
abbrev pub assert_mailbox : ℕ → ℕ → Db → Result (Unit {0})
assert_mailbox org id db =
    throw_if (not (has (λ m. m.id == id && of_org org db.domains m) db.mailboxes))
      (not_found "Mailbox not found")

abbrev assert_scope : ℕ → Option ℕ → Db → Result (Unit {0})
assert_scope org none db = ok tt
assert_scope org (some id) db = assert_mailbox org id db

-- `mailbox_id IS NOT DISTINCT FROM $2`
abbrev pub same_scope : Option ℕ → Option ℕ → Bool
same_scope none none = true
same_scope (some a) (some b) = a == b
same_scope none (some b) = false
same_scope (some a) none = false

abbrev pub is_active : ℕ → HoldRow → Bool
is_active org h = h.org_id == org && is_none h.released_at

abbrev pub active_at : ℕ → Option ℕ → HoldRow → Bool
active_at org scope h = is_active org h && same_scope h.mailbox_id scope

abbrev target_type : Option ℕ → String
target_type none = "organization"
target_type (some id) = "mailbox"

abbrev target_id : ℕ → Option ℕ → ℕ
target_id org none = org
target_id org (some id) = id

abbrev pub new_hold : ℕ → ℕ → ℕ → ℕ → Option ℕ → Text → HoldRow
new_hold now id org actor scope reason = record {
  id = id;
  org_id = org;
  mailbox_id = scope;
  reason = reason;
  created_by = actor;
  created_at = now;
  released_at = none;
  released_by = none;
}

-- `create`
unfoldable pub create : ℕ → ℕ → Principal → ℕ → Option ℕ → Text → Db → Result (HoldRow × Db)
create now id p org scope reason db = do
  require_role now org p.user_id admin db
  assert_scope org scope db
  throw_if (has (active_at org scope) db.holds) (conflict "An active hold already exists here")
  let row = new_hold now id org p.user_id scope reason
  ok (
    row,
    user_event org p.user_id "legal_hold.create" (target_type scope) (target_id org scope)
        (record db { holds = db.holds ++ row ∷ [] }),
  )

abbrev pub active_id : ℕ → ℕ → HoldRow → Bool
active_id org id h = h.id == id && is_active org h

abbrev pub released : ℕ → ℕ → HoldRow → HoldRow
released now actor h = record h { released_at = some now; released_by = some actor }

-- `release`
unfoldable pub release : ℕ → Principal → ℕ → ℕ → Db → Result Db
release now p org id db = do
  require_role now org p.user_id admin db
  throw_if (not (has (active_id org id) db.holds)) (not_found "Active hold not found")
  ok (
      user_event org p.user_id "legal_hold.release" "legal_hold" id
        (record db { holds = modify (active_id org id) (released now p.user_id) db.holds }))

pub record Held : Type 0 where
  pub org_wide : Bool
  pub ids : List ℕ

-- The loop of `heldMailboxIds`.
unfoldable pub held_of : Held → List HoldRow → Held
held_of acc [] = acc
held_of acc (h ∷ hs) = elim h.mailbox_id [
  | none ↦ held_of (record acc { org_wide = true }) hs
  | some id ↦ held_of (record acc { ids = acc.ids ++ id ∷ [] }) hs
]

-- `heldMailboxIds`
pub held_mailbox_ids : ℕ → Db → Held
held_mailbox_ids org db =
    held_of (record { org_wide = false; ids = [] }) (select (is_active org) db.holds)

-- `held.ids.has(id)`
abbrev pub has_id : ℕ → List ℕ → Bool
has_id id [] = false
has_id id (x ∷ xs) = x == id || has_id id xs

-- What an update of the policy asks for; `some none` clears the age.
pub record UpdateRetentionRequest : Type 0 where
  pub enabled : Option Bool
  pub delete_after_days : Option (Option ℕ)
  pub folders : Option (List Text)

abbrev pub given {ℓ} : {A : Type ℓ} → Option A → A → A
given none old = old
given (some new) old = new

abbrev pub policy_of : ℕ → PolicyRow → Bool
policy_of org r = r.org_id == org

-- The columns' defaults, with the folders `{Trash,Junk}` as the argument.
abbrev pub new_policy : List Text → ℕ → ℕ → Option ℕ → PolicyRow
new_policy folders now org actor = record {
  org_id = org;
  enabled = false;
  delete_after_days = none;
  folders = folders;
  updated_by = actor;
  updated_at = now;
}

abbrev pub apply_request : ℕ → ℕ → UpdateRetentionRequest → PolicyRow → PolicyRow
apply_request now actor req r = record r {
  enabled = given req.enabled r.enabled;
  delete_after_days = given req.delete_after_days r.delete_after_days;
  folders = given req.folders r.folders;
  updated_by = some actor;
  updated_at = now;
}

-- `updatePolicy`: an upsert, whose INSERT writes the defaults.
unfoldable pub update_policy :
    List Text → ℕ → Principal → ℕ → UpdateRetentionRequest → Db → Result Db
update_policy folders now p org req db = do
  require_role now org p.user_id admin db
  ok (
      user_event org p.user_id "retention.policy.update" "organization" org (record db {
        policies =
            if has (policy_of org) db.policies
            then modify (policy_of org) (apply_request now p.user_id req) db.policies
            else db.policies ++ new_policy folders now org (some p.user_id) ∷ [];
      }))

-- `getPolicy`: it inserts the default row where there is none.
unfoldable pub get_policy : List Text → ℕ → ℕ → ℕ → Db → Result Db
get_policy folders now org user db = do
  require_role now org user admin db
  ok (
      if has (policy_of org) db.policies
      then db
      else record db { policies = db.policies ++ new_policy folders now org none ∷ [] })
