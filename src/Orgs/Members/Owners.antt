-- ===== src/Orgs/Members/Owners.antt =====
-- Counting the owners of an organization in the table of members of apps/api/src/orgs.
use justmail.Prelude.{
  ℕ, ◌+◌, ◌≤◌, ◌≡◌, ◌≢◌, Bool, true, false, List, [], ◌∷◌, ◌++◌, arith, ◌==◌, refl,
}
use justmail.Prelude.Table.{exclude, modify, first?, has, count}
use justmail.Store.{Role, MemberRow, member_at, owner_of}
use justmail.Orgs.Members.{is_owner_row, set_role}

-- The primary key (org_id, user_id) of `org_members`.
abbrev pub IsKeyed : List MemberRow → Type 0
IsKeyed [] = Unit
IsKeyed (m ∷ ms) = (has (member_at m.org_id m.user_id) ms ≡ false) × IsKeyed ms

abbrev pub owners : ℕ → List MemberRow → ℕ
owners org ms = count (owner_of org) ms

abbrev pub weight : Bool → ℕ
weight true = 1
weight false = 0

pub owners-exclude_absent :
    (org user : ℕ) (ms : List MemberRow)
    → has (member_at org user) ms ≡ false
    → owners org (exclude (member_at org user) ms) ≡ owners org ms
owners-exclude_absent org user [] h = refl
owners-exclude_absent org user (m ∷ ms) h = ground (arith, owners-exclude_absent org user ms)

pub owners-modify_absent :
    (org user : ℕ) (role : Role) (ms : List MemberRow)
    → has (member_at org user) ms ≡ false
    → owners org (modify (member_at org user) (set_role role) ms) ≡ owners org ms
owners-modify_absent org user role [] h = refl
owners-modify_absent org user role (m ∷ ms) h =
    ground (arith, owners-modify_absent org user role ms)

pub has-member_at :
    (org user a b : ℕ) (ms : List MemberRow)
    → a ≡ org
    → b ≡ user
    → has (member_at a b) ms ≡ false
    → has (member_at org user) ms ≡ false
has-member_at org user a b ms p q h = cc

-- Deleting the row of one user costs an owner only if that row was an owner's.
pub owners-exclude :
    (org user : ℕ) (ms : List MemberRow)
    → IsKeyed ms
    → owners org ms
      ≤ owners org (exclude (member_at org user) ms)
        + weight (is_owner_row (first? (member_at org user) ms))
owners-exclude org user [] h = omega arith
owners-exclude org user (m ∷ ms) (k, h) = ground (
  arith,
  owners-exclude org user ms h,
  owners-exclude_absent org user ms,
  has-member_at org user m.org_id m.user_id ms,
)

pub owners-modify :
    (org user : ℕ) (role : Role) (ms : List MemberRow)
    → IsKeyed ms
    → owners org ms
      ≤ owners org (modify (member_at org user) (set_role role) ms)
        + weight (is_owner_row (first? (member_at org user) ms))
owners-modify org user role [] h = omega arith
owners-modify org user role (m ∷ ms) (k, h) = ground (
  arith,
  owners-modify org user role ms h,
  owners-modify_absent org user role ms,
  has-member_at org user m.org_id m.user_id ms,
)

-- Rows of other organizations are untouched.
pub owners-exclude_ne :
    (org user other : ℕ) (ms : List MemberRow)
    → other ≢ org
    → owners other (exclude (member_at org user) ms) ≡ owners other ms
owners-exclude_ne org user other [] h = refl
owners-exclude_ne org user other (m ∷ ms) h = ground (arith, owners-exclude_ne org user other ms h)

pub owners-modify_ne :
    (org user other : ℕ) (role : Role) (ms : List MemberRow)
    → other ≢ org
    → owners other (modify (member_at org user) (set_role role) ms) ≡ owners other ms
owners-modify_ne org user other role [] h = refl
owners-modify_ne org user other role (m ∷ ms) h =
    ground (arith, owners-modify_ne org user other role ms h)

pub owners-delete_ne :
    (org other : ℕ) (ms : List MemberRow)
    → other ≢ org
    → owners other (exclude (λ m. m.org_id == org) ms) ≡ owners other ms
owners-delete_ne org other [] h = refl
owners-delete_ne org other (m ∷ ms) h = ground (arith, owners-delete_ne org other ms h)

keyed_has-exclude :
    (org user a b : ℕ) (ms : List MemberRow)
    → has (member_at a b) ms ≡ false
    → has (member_at a b) (exclude (member_at org user) ms) ≡ false
keyed_has-exclude org user a b [] h = refl
keyed_has-exclude org user a b (m ∷ ms) h = ground (arith, keyed_has-exclude org user a b ms)

has-delete :
    (org a b : ℕ) (ms : List MemberRow)
    → has (member_at a b) ms ≡ false
    → has (member_at a b) (exclude (λ m. m.org_id == org) ms) ≡ false
has-delete org a b [] h = refl
has-delete org a b (m ∷ ms) h = ground (arith, has-delete org a b ms)

has-modify :
    (org user a b : ℕ) (role : Role) (ms : List MemberRow)
    → has (member_at a b) (modify (member_at org user) (set_role role) ms) ≡ has (member_at a b) ms
has-modify org user a b role [] = refl
has-modify org user a b role (m ∷ ms) = ground (arith, has-modify org user a b role ms)

pub has-append :
    (a b : ℕ) (ms : List MemberRow) (x : MemberRow)
    → has (member_at a b) ms ≡ false
    → member_at a b x ≡ false
    → has (member_at a b) (ms ++ x ∷ []) ≡ false
has-append a b [] x h k = ground arith
has-append a b (m ∷ ms) x h k = ground (arith, has-append a b ms x)

pub IsKeyed-exclude :
    (org user : ℕ) (ms : List MemberRow) → IsKeyed ms → IsKeyed (exclude (member_at org user) ms)
IsKeyed-exclude org user [] h = tt
IsKeyed-exclude org user (m ∷ ms) (k, h) =
    ground
      (arith, IsKeyed-exclude org user ms h, keyed_has-exclude org user m.org_id m.user_id ms k)

pub IsKeyed-delete :
    (org : ℕ) (ms : List MemberRow) → IsKeyed ms → IsKeyed (exclude (λ m. m.org_id == org) ms)
IsKeyed-delete org [] h = tt
IsKeyed-delete org (m ∷ ms) (k, h) =
    ground (arith, IsKeyed-delete org ms h, has-delete org m.org_id m.user_id ms k)

pub IsKeyed-modify :
    (org user : ℕ) (role : Role) (ms : List MemberRow)
    → IsKeyed ms
    → IsKeyed (modify (member_at org user) (set_role role) ms)
IsKeyed-modify org user role [] h = tt
IsKeyed-modify org user role (m ∷ ms) (k, h) =
    ground
      (arith, IsKeyed-modify org user role ms h, has-modify org user m.org_id m.user_id role ms)

pub IsKeyed-append :
    (ms : List MemberRow) (x : MemberRow)
    → IsKeyed ms
    → has (member_at x.org_id x.user_id) ms ≡ false
    → IsKeyed (ms ++ x ∷ [])
IsKeyed-append [] x h k = (refl, tt)
IsKeyed-append (m ∷ ms) x (j, h) k =
    ground (arith, IsKeyed-append ms x h, has-append m.org_id m.user_id ms x j)
