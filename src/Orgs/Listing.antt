-- ===== src/Orgs/Listing.antt =====
-- `listForUser`, `get` and `listMembers` of apps/api/src/orgs/orgs.service.ts. The tables are in the
-- order of insertion, which is that of `created_at`.
use justmail.Prelude.{
  ℕ, ◌≡◌, Bool, true, ◌&&◌, ◌||◌, List, [], ◌∷◌, Option, none, some, Text, arith, IsIn, ◌==◌,
  Result, ok, err, not_found, ◌>>◌, if◌then◌else◌, inl, inr, Bool-cases, Option-cases, ap, sym, ◌∙◌,
}
use justmail.Prelude.Table.{select, first?, has}
use justmail.Store.{Role, viewer, OrgRow, UserRow, MemberRow, KeyRow, Db, member_at}
use justmail.Orgs.{require_role, find_role, is_none, live_key}

-- `SELECT … FROM api_keys k … WHERE k.id = $1 AND k.revoked_at IS NULL`
abbrev pub key_of_org : ℕ → ℕ → KeyRow → Bool
key_of_org org user k = k.id == user && k.org_id == org && is_none k.revoked_at

abbrev pub belongs : ℕ → Db → OrgRow → Bool
belongs user db o = has (member_at o.id user) db.members || has (key_of_org o.id user) db.keys

-- `listForUser`: the UNION of the two joins, without duplicates.
unfoldable pub list_for_user : ℕ → Db → List OrgRow
list_for_user user db = select (belongs user db) db.orgs

abbrev found_org : Option OrgRow → Result OrgRow
found_org none = err (not_found "Organization not found")
found_org (some o) = ok o

-- `get`
unfoldable pub get : ℕ → ℕ → ℕ → Db → Result OrgRow
get now org user db = do
  require_role now org user viewer db
  found_org (first? (λ o. o.id == org) db.orgs)

-- `OrgMember`
pub record OrgMember : Type 0 where
  pub user_id : ℕ
  pub email : Text
  pub name : Text
  pub role : Role

-- The join of the members with `users`, whose `id` is a key.
unfoldable pub join_users : ℕ → List UserRow → List MemberRow → List OrgMember
join_users org us [] = []
join_users org us (m ∷ ms) =
    let rest = join_users org us ms in
    if m.org_id == org
    then elim (first? (λ u. u.id == m.user_id) us) [
      | none ↦ rest
      | some u ↦
          record { user_id = m.user_id; email = u.email; name = u.name; role = m.role } ∷ rest
    ]
    else rest

-- `listMembers`
unfoldable pub list_members : ℕ → ℕ → ℕ → Db → Result (List OrgMember)
list_members now org user db = do
  require_role now org user viewer db
  ok (join_users org db.users db.members)

first-has :
    {A : Type 0} (p : A → Bool) (xs : List A) (x : A) → first? p xs ≡ some x → has p xs ≡ true
first-has p [] x h = absurd (ground arith)
first-has p (y ∷ ys) x h = ground (arith, first-has p ys x)

key-has :
    (now org user : ℕ) (ks : List KeyRow) (k : KeyRow)
    → first? (live_key now user) ks ≡ some k
    → k.org_id ≡ org
    → has (key_of_org org user) ks ≡ true
key-has now org user [] k h e = absurd (ground arith)
key-has now org user (x ∷ ks) k h e = ground (arith, key-has now org user ks k)

found-belongs :
    (now user : ℕ) (o : OrgRow) (db : Db) (r : Role)
    → find_role now o.id user db ≡ some r
    → belongs user db o ≡ true
unfolding find_role
found-belongs now user o db r h = elim (Option-cases (first? (member_at o.id user) db.members)) [
  | inr (m, found) ↦ ground (arith, first-has (member_at o.id user) db.members m found)
  | inl missing ↦ elim (Option-cases (first? (live_key now user) db.keys)) [
    | inl no_key ↦ absurd (ground arith)
    | inr (k, found) ↦ ground (arith, key-has now o.id user db.keys k found)
  ]
]

IsIn-select :
    (p : OrgRow → Bool) (o : OrgRow) (os : List OrgRow)
    → IsIn o os
    → p o ≡ true
    → IsIn o (select p os)
IsIn-select p o [] h e = h
IsIn-select p o (x ∷ os) (inl same) e = rw (ap p (sym same) ∙ e) (inl same)
IsIn-select p o (x ∷ os) (inr later) e = elim (Bool-cases (p x)) [
  | inl kept ↦ rw kept (inr (IsIn-select p o os later e))
  | inr out ↦ rw out (IsIn-select p o os later e)
]

-- Every organization in which a role check of the caller passes, for whatever role and at whatever
-- time, is among those listed for the caller.
pub require_role-list_for_user :
    (now user : ℕ) (o : OrgRow) (min r : Role) (db : Db)
    → IsIn o db.orgs
    → require_role now o.id user min db ≡ ok r
    → IsIn o (list_for_user user db)
unfolding list_for_user require_role
require_role-list_for_user now user o min r db stored h =
    IsIn-select (belongs user db) o db.orgs stored (found-belongs now user o db r (ground arith))
