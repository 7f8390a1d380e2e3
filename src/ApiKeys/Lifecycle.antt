-- ===== src/ApiKeys/Lifecycle.antt =====
-- Which tokens `resolve` of apps/api/src/apikeys/apikeys.service.ts admits over the life of a key.
use justmail.ApiKeys.{take}
use justmail.Prelude.{
  ℕ, ◌≡◌, true, false, List, [], ◌∷◌, ◌++◌, Option, none, some, String, Text, arith, ◌==◌,
  if◌then◌else◌, inl, inr, Option-cases, ok, err, unauthorized, not_found, text_eq_refl,
}
use justmail.Prelude.Table.{modify, first?, has, first?-eq-some}
use justmail.Store.{Role, KeyRow, Db, Principal, member_at}
use justmail.Orgs.{require_role, find_role, live_key}
use justmail.ApiKeys.{hashed, new_key, create, revocable, revoked, revoke, is_past, touch, resolve}

first?-append :
    (hash : Text) (ks : List KeyRow) (x : KeyRow)
    → has (hashed hash) ks ≡ false
    → hashed hash x ≡ true
    → first? (hashed hash) (ks ++ x ∷ []) ≡ some x
first?-append hash [] x h k = ground arith
first?-append hash (i ∷ ks) x h k = ground (arith, first?-append hash ks x)

-- A new key, whose hash no key had, is admitted under its token for its organization with its scopes
-- as long as it has not expired, and is refused as expired afterwards.
pub resolve-create :
    (sha256 : Text → Text) (now id : ℕ) (token : Text) (p : Principal) (org : ℕ) (name : Text)
    (scopes : List String) (expires_at : Option ℕ) (db db' : Db) (shown : KeyRow × Text) (later : ℕ)
    → create sha256 now id token p org name scopes expires_at db ≡ ok (shown, db')
    → resolve sha256 later shown.1 db' ≡ (
        if is_past later expires_at
        then err (unauthorized "API key expired")
        else ok (record { key_id = id; org_id = org; scopes = scopes }, touch later id db'))
unfolding create resolve
resolve-create sha256 now id token p org name scopes expires_at db db' shown later h = ground (
  arith,
  text_eq_refl (sha256 token),
  first?-append (sha256 token) db.keys
      (new_key now id org p.user_id name (take 10 token) (sha256 token) scopes expires_at),
)

first?-revoke :
    (hash : Text) (now org id : ℕ) (ks : List KeyRow) (k : KeyRow)
    → first? (hashed hash) ks ≡ some k
    → first? (hashed hash) (modify (revocable org id) (revoked now) ks)
      ≡ some (if revocable org id k then revoked now k else k)
first?-revoke hash now org id [] k h = cc
first?-revoke hash now org id (x ∷ ks) k h = ground (arith, first?-revoke hash now org id ks k)

-- The key that `requireRole` looks for is not one of the organization any more.
live_key-revoke :
    (now later org id : ℕ) (ks : List KeyRow) (k : KeyRow)
    → first? (live_key later id) (modify (revocable org id) (revoked now) ks) ≡ some k
    → (k.org_id == org) ≡ false
live_key-revoke now later org id [] k h = absurd (ground arith)
live_key-revoke now later org id (x ∷ ks) k h =
    ground (arith, live_key-revoke now later org id ks k)

-- A revoked key opens nothing at any later time: its token is refused as revoked, and, unless the id is
-- that of a member, every role check of its organization fails for it.
pub revoke_closes :
    (sha256 : Text → Text) (now : ℕ) (p : Principal) (org : ℕ) (k : KeyRow) (token : Text)
    (db db' : Db) (later : ℕ) (min : Role)
    → first? (hashed (sha256 token)) db.keys ≡ some k
    → k.org_id ≡ org
    → first? (member_at org k.id) db.members ≡ none
    → revoke now p org k.id db ≡ ok db'
    → (resolve sha256 later token db' ≡ err (unauthorized "API key revoked"))
      × (require_role later org k.id min db' ≡ err (not_found "Organization not found"))
unfolding revoke resolve require_role find_role
revoke_closes sha256 now p org k token db db' later min found same outside h =
    let admits = first?-revoke (sha256 token) now org k.id db.keys k found in
    (
      ground (arith, admits, first?-eq-some (hashed (sha256 token)) db.keys k found),
      elim (Option-cases
          (first? (live_key later k.id) (modify (revocable org k.id) (revoked now) db.keys))) [
            | inl none_left ↦ ground arith
            | inr (other, left) ↦
                ground (arith, live_key-revoke now later org k.id db.keys other left)
          ],
    )
