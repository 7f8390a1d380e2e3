-- ===== src/Orgs/Members/Grants.antt =====
-- Who may make an owner by apps/api/src/orgs/orgs.service.ts.
use justmail.Prelude.{ℕ, ◌≡◌, ◌⊎◌, Bool, true, List, [], ◌∷◌, ◌++◌, some, arith, inl, inr, ok, Text}
use justmail.Prelude.Table.{modify, first?}
use justmail.Store.{Role, owner, MemberRow, Db, Principal, member_at, is_owner}
use justmail.Orgs.{require_role, find_role}
use justmail.Orgs.Members.{set_role, new_member, is_owner_row, add_member, update_member}
use justmail.Orgs.Members.Sound.{update_member-eq-ok}
use justmail.Orgs.Members.Joining.{add_member-eq-ok}

-- Whether the user's row in the organization says owner.
abbrev pub owns : ℕ → ℕ → List MemberRow → Bool
owns org user ms = is_owner_row (first? (member_at org user) ms)

owns-append :
    (org user : ℕ) (ms : List MemberRow) (x : MemberRow)
    → owns org user (ms ++ x ∷ []) ≡ true
    → (owns org user ms ≡ true) ⊎ ((x.org_id ≡ org) × (is_owner x.role ≡ true))
owns-append org user [] x h = ground arith
owns-append org user (m ∷ ms) x h = ground (arith, owns-append org user ms x)

owns-modify :
    (org user o u : ℕ) (role : Role) (ms : List MemberRow)
    → owns o u (modify (member_at org user) (set_role role) ms) ≡ true
    → (owns o u ms ≡ true) ⊎ ((org ≡ o) × (is_owner role ≡ true))
owns-modify org user o u role [] h = inl h
owns-modify org user o u role (m ∷ ms) h = ground (arith, owns-modify org user o u role ms)

add_member-grants :
    (same_email : Text → Text → Bool) (now : ℕ) (p : Principal) (org : ℕ) (email : Text)
    (role : Role) (db db' : Db)
    → add_member same_email now p org email role db ≡ ok db'
    → is_owner role ≡ true
    → find_role now org p.user_id db ≡ some owner
unfolding add_member require_role
add_member-grants same_email now p org email role db db' h k = ground arith

update_member-grants :
    (now : ℕ) (p : Principal) (org user : ℕ) (role : Role) (db db' : Db)
    → update_member now p org user role db ≡ ok db'
    → is_owner role ≡ true
    → find_role now org p.user_id db ≡ some owner
unfolding update_member require_role
update_member-grants now p org user role db db' h k = ground arith

-- When a request to add a member succeeds, whoever owns an organization afterwards owned it before,
-- unless the actor's own role in that organization is owner.
pub owns-add_member :
    (same_email : Text → Text → Bool) (now : ℕ) (p : Principal) (org : ℕ) (email : Text)
    (role : Role) (db db' : Db) (o u : ℕ)
    → add_member same_email now p org email role db ≡ ok db'
    → owns o u db'.members ≡ true
    → (owns o u db.members ≡ true) ⊎ (find_role now o p.user_id db ≡ some owner)
owns-add_member same_email now p org email role db db' o u h k =
    let (new, _, _, ms, _) = add_member-eq-ok same_email now p org email role db db' h in
    elim (owns-append o u db.members (new_member org new.id role) (rw ms at k)) [
      | inl before ↦ inl before
      | inr (e, grant) ↦
          inr (rw (← e) (add_member-grants same_email now p org email role db db' h grant))
    ]

-- When a request to change a member's role succeeds, whoever owns an organization afterwards owned
-- it before, unless the actor's own role in that organization is owner.
pub owns-update_member :
    (now : ℕ) (p : Principal) (org user : ℕ) (role : Role) (db db' : Db) (o u : ℕ)
    → update_member now p org user role db ≡ ok db'
    → owns o u db'.members ≡ true
    → (owns o u db.members ≡ true) ⊎ (find_role now o p.user_id db ≡ some owner)
owns-update_member now p org user role db db' o u h k =
    let (_, ms, _) = update_member-eq-ok now p org user role db db' h in
    elim (owns-modify org user o u role db.members (rw ms at k)) [
      | inl before ↦ inl before
      | inr (e, grant) ↦ inr (rw (← e) (update_member-grants now p org user role db db' h grant))
    ]
