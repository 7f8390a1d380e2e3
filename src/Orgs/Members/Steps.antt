-- ===== src/Orgs/Members/Steps.antt =====
-- The tables of apps/api/src/orgs/orgs.service.ts under any sequence of requests.
use justmail.Prelude.{Bool, ℕ, ◌≡◌, ok, Text, Option}
use justmail.Store.{Role, Db, Principal}
use justmail.Orgs.Members.{create, update, remove, add_member, update_member, remove_member}
use justmail.Orgs.Members.Sound.{IsSound, update_member-IsSound, remove_member-IsSound}
use justmail.Orgs.Members.Joining.{
  IsFresh, create-IsSound, update-IsSound, remove-IsSound, add_member-IsSound,
}

module _ (same_email : Text → Text → Bool) (fold : Text → Text) where
  -- One successful request; a refused one changes nothing. Any principal may send any request.
  pub data Step : Db → Db → Type 0 where
    creates :
        {db db' : Db} (fallback : Text) (now id : ℕ) (p : Principal) (name : Text)
        (slug : Option Text)
        → IsFresh id db
        → create fold fallback now id p name slug db ≡ ok db'
        → Step db db'
    updates :
        {db db' : Db} (now : ℕ) (p : Principal) (org : ℕ) (name : Option Text)
        → update now p org name db ≡ ok db'
        → Step db db'
    removes :
        {db db' : Db} (now : ℕ) (p : Principal) (org : ℕ)
        → remove now p org db ≡ ok db'
        → Step db db'
    adds_member :
        {db db' : Db} (now : ℕ) (p : Principal) (org : ℕ) (email : Text) (role : Role)
        → add_member same_email now p org email role db ≡ ok db'
        → Step db db'
    updates_member :
        {db db' : Db} (now : ℕ) (p : Principal) (org user : ℕ) (role : Role)
        → update_member now p org user role db ≡ ok db'
        → Step db db'
    removes_member :
        {db db' : Db} (now : ℕ) (p : Principal) (org user : ℕ)
        → remove_member now p org user db ≡ ok db'
        → Step db db'

  pub data Reach (db : Db) : Db → Type 0 where
    here : Reach db db
    next : {mid db' : Db} → Reach db mid → Step mid db' → Reach db db'

  Step-IsSound : {db db' : Db} → Step db db' → IsSound db → IsSound db'
  Step-IsSound (creates fallback now id p name slug fresh h) s =
      create-IsSound fold fallback now id p name slug _ _ s fresh h
  Step-IsSound (updates now p org name h) s = update-IsSound now p org name _ _ s h
  Step-IsSound (removes now p org h) s = remove-IsSound now p org _ _ s h
  Step-IsSound (adds_member now p org email role h) s =
      add_member-IsSound same_email now p org email role _ _ s h
  Step-IsSound (updates_member now p org user role h) s =
      update_member-IsSound now p org user role _ _ s h
  Step-IsSound (removes_member now p org user h) s = remove_member-IsSound now p org user _ _ s h

  -- After any sequence of successful requests that create organizations (under unused ids), update
  -- or delete them, or add, update or remove members, from a database whose memberships have
  -- distinct keys and where each organization has an owner, the same holds: no organization is
  -- left without an owner. Accepting an invite is not among these requests.
  pub Reach-IsSound : {db db' : Db} → IsSound db → Reach db db' → IsSound db'
  Reach-IsSound s here = s
  Reach-IsSound s (next r st) = Step-IsSound st (Reach-IsSound s r)
