-- ===== src/Invites/Pending.antt =====
-- Which tokens `loadPending` of apps/api/src/invites/invites.service.ts honours.
use justmail.Prelude.{
  ℕ, ◌+◌, ◌*◌, ◌≡◌, Bool, true, false, List, [], ◌∷◌, ◌++◌, none, some, arith, ◌==◌, leb,
  if◌then◌else◌, inl, inr, Option-cases, Result-cases, ok, err, bad_request, Text, text_eq_refl,
}
use justmail.Prelude.Table.{modify, exclude, first?, has, has-exclude}
use justmail.Store.{Role, InviteRow, Db, Principal}
use justmail.Invites.{
  new_invite, create, load_pending, hashed, accept, revoke, revocable, stamp, upsert, user_for,
  by_email,
}

-- `accept` keeps every token hash, so a lookup finds the same row, stamped if it has the id.
first?-stamp :
    (hash : Text) (now id : ℕ) (is : List InviteRow) (i : InviteRow)
    → first? (hashed hash) is ≡ some i
    → first? (hashed hash) (modify (λ i. i.id == id) (stamp now) is)
      ≡ some (if i.id == id then stamp now i else i)
first?-stamp hash now id [] i h = cc
first?-stamp hash now id (x ∷ is) i h = ground (arith, first?-stamp hash now id is i)

first?-append :
    (hash : Text) (is : List InviteRow) (x : InviteRow)
    → has (hashed hash) is ≡ false
    → hashed hash x ≡ true
    → first? (hashed hash) (is ++ x ∷ []) ≡ some x
first?-append hash [] x h k = ground arith
first?-append hash (i ∷ is) x h k = ground (arith, first?-append hash is x)

load_pending-eq-ok :
    (sha256 : Text → Text) (now : ℕ) (token : Text) (db : Db) (inv : InviteRow)
    → load_pending sha256 now token db ≡ ok inv
    → (first? (hashed (sha256 token)) db.invites ≡ some inv) × (inv.accepted_at ≡ none)
unfolding load_pending
load_pending-eq-ok sha256 now token db inv h =
    elim (Option-cases (first? (hashed (sha256 token)) db.invites)) [
      | inl missing ↦ absurd (ground arith)
      | inr (i, found) ↦ (ground arith, ground arith)
    ]

pub accept-eq-ok :
    (sha256 : Text → Text) (same_email : Text → Text → Bool) (now id : ℕ) (token name hash : Text)
    (db db' : Db) (u : ℕ)
    → accept sha256 same_email now id token name hash db ≡ ok (u, db')
    → (inv : InviteRow) × (load_pending sha256 now token db ≡ ok inv)
      × (u ≡ user_for id (first? (by_email same_email inv.email) db.users))
      × (db'.members ≡ upsert inv.org_id u inv.role db.members)
      × (db'.invites ≡ modify (λ i. i.id == inv.id) (stamp now) db.invites)
      × (db'.orgs ≡ db.orgs)
unfolding accept
accept-eq-ok sha256 same_email now id token name hash db db' u h =
    elim (Result-cases (load_pending sha256 now token db)) [
      | inr (e, failed) ↦ absurd (ground arith)
      | inl (inv, loaded) ↦ (inv, loaded, ground arith, ground arith, ground arith, ground arith)
    ]

-- A token is good for one acceptance: once it was accepted, every later attempt with it, whoever
-- makes it and when, is refused as already used.
pub accept_once :
    (sha256 : Text → Text) (same_email : Text → Text → Bool) (now id : ℕ) (token name hash : Text)
    (db db' : Db) (u : ℕ) (now' id' : ℕ) (name' hash' : Text)
    → accept sha256 same_email now id token name hash db ≡ ok (u, db')
    → accept sha256 same_email now' id' token name' hash' db'
      ≡ err (bad_request "Invite already used")
accept_once sha256 same_email now id token name hash db db' u now' id' name' hash' h =
    let (inv, loaded, _, _, is, _) =
      accept-eq-ok sha256 same_email now id token name hash db db' u h in
    let (found, fresh) = load_pending-eq-ok sha256 now token db inv loaded in
    unfold accept load_pending in
    ground (arith, first?-stamp (sha256 token) now inv.id db.invites inv found)

-- A new invite, whose token hash no invite had, is found under its token up to and including
-- fourteen days after it was made, and is refused as expired later.
pub load_pending-create :
    (sha256 : Text → Text) (same_email : Text → Text → Bool) (now id : ℕ) (token : Text)
    (p : Principal) (org : ℕ) (email : Text) (role : Role) (db db' : Db) (row : InviteRow)
    (later : ℕ)
    → has (hashed (sha256 token)) db.invites ≡ false
    → create sha256 same_email now id token p org email role db ≡ ok (row, db')
    → load_pending sha256 later token db' ≡ (
        if leb later (now + 14 * 86400000)
        then ok (new_invite now id org p.user_id email role (sha256 token))
        else err (bad_request "Invite expired"))
unfolding load_pending create
load_pending-create sha256 same_email now id token p org email role db db' row later unused h =
    ground (
      arith,
      text_eq_refl (sha256 token),
      first?-append (sha256 token) db.invites
          (new_invite now id org p.user_id email role (sha256 token)),
    )

-- A revocation succeeds only where the organization has an invite with that id that was not
-- accepted; it deletes those and no other invite, leaves none of them, and changes no membership.
pub revoke_lem :
    (now : ℕ) (p : Principal) (org id : ℕ) (db db' : Db)
    → revoke now p org id db ≡ ok db'
    → (has (revocable org id) db.invites ≡ true)
      × (db'.invites ≡ exclude (revocable org id) db.invites)
      × (has (revocable org id) db'.invites ≡ false)
      × (db'.members ≡ db.members)
unfolding revoke
revoke_lem now p org id db db' h = ground (arith, has-exclude (revocable org id) db.invites)
