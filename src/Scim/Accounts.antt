-- ===== src/Scim/Accounts.antt =====
-- What provisioning by apps/api/src/scim/scim.service.ts does to accounts and memberships that were there.
use justmail.Prelude.{
  ℕ, ◌≡◌, ◌∙◌, Bool, true, false, not, ◌&&◌, List, [], ◌∷◌, some, Text, text_eq_refl, arith, ◌==◌,
  ok, refl,
}
use justmail.Prelude.Texts.{trim, includes, to_lower}
use justmail.Prelude.Table.{first?, modify, has}
use justmail.Store.{
  Role, owner, admin, MemberRow, UserRow, Db, Principal, member_at, ScimUserRow, ScimConfigRow,
}
use justmail.Orgs.{require_role}
use justmail.Orgs.Members.{user_event, new_member}
use justmail.Invites.Acceptance.{first?-joined}
use justmail.Scim.{
  ScimContext, ScimConfigRequest, config_of, configured, with_config, ensure_config, update_config,
  authenticate, seen_at,
}
use justmail.Scim.Wire.{ScimUser, or, primary_email, is_nothing}
use justmail.Scim.Users.{
  create_user, provision, named_user, system_event, join_org, suspend, is_suspended,
}

has-suspend :
    (id : ℕ) (us : List UserRow)
    → has (λ u. u.id == id && not (is_suspended u.status)) (suspend id us) ≡ false
has-suspend id [] = refl
has-suspend id (u ∷ us) = ground (arith, has-suspend id us)

-- The account that has the address of a new inactive user is suspended, whatever organization it
-- belongs to: the resource is one of that account, and no row of it is active any more.
pub create_user_suspends :
    (same_email : Text → Text → Bool) (ctx : ScimContext) (id user : ℕ) (body : ScimUser)
    (row : ScimUserRow) (v : UserRow) (db db' : Db)
    → first?
        (λ u. same_email u.email (or (primary_email body) (trim (or body.user_name []))))
        db.users
      ≡ some v
    → body.active ≡ some false
    → create_user same_email ctx id user body db ≡ ok (row, db')
    → (row.user_id ≡ v.id)
      × (has (λ u. u.id == v.id && not (is_suspended u.status)) db'.users ≡ false)
unfolding create_user
create_user_suspends same_email ctx id user body row v db db' found inactive h =
    ground (arith, has-suspend v.id db.users)

first?-configured :
    (req : ScimConfigRequest) (org : ℕ) (cs : List ScimConfigRow) (c : ScimConfigRow)
    → first? (config_of org) cs ≡ some c
    → first? (config_of org) (modify (config_of org) (configured req) cs) ≡ some (configured req c)
first?-configured req org [] c h = cc
first?-configured req org (x ∷ cs) c h = ground (arith, first?-configured req org cs c)

has-config :
    (org : ℕ) (cs : List ScimConfigRow) (c : ScimConfigRow)
    → first? (config_of org) cs ≡ some c
    → has (config_of org) cs ≡ true
has-config org [] c h = absurd (ground arith)
has-config org (x ∷ cs) c h = ground (arith, has-config org cs c)

joined_as :
    (org user : ℕ) (role : Role) (ms : List MemberRow)
    → has (member_at org user) ms ≡ false
    → first? (member_at org user) (join_org org user role ms) ≡ some (new_member org user role)
joined_as org user role ms absent = rw absent (first?-joined org user role ms absent)

-- The settings that an admin writes are those of the next request of the directory.
update_config-admitted :
    (sha256 : Text → Text) (now later : ℕ) (p : Principal) (org : ℕ) (req : ScimConfigRequest)
    (old : ScimConfigRow) (token : Text) (r : Role) (d : ℕ) (hash : Text) (db : Db)
    → require_role now org p.user_id admin db ≡ ok r
    → first? (config_of org) db.scim_configs ≡ some old
    → old.token_hash ≡ some (d ∷ hash)
    → sha256 token ≡ d ∷ hash
    → req.enabled ≡ true
    → (set : Db) × (opened : Db) × (update_config now p org req db ≡ ok (configured req old, set))
      × (authenticate sha256 later org token set
          ≡ ok (record { org_id = org; config = configured req old }, opened))
      × (opened.members ≡ db.members)
      × (opened.users ≡ db.users)
      × (opened.scim_users ≡ db.scim_users)
unfolding update_config authenticate ensure_config
update_config-admitted sha256 now later p org req old token r d hash db allowed found stored hashed
      on =
    let there = has-config org db.scim_configs old found in
    let written = first?-configured req org db.scim_configs old found in
    let set : Db =
      user_event org p.user_id "scim.config.update" "scim_config" org
        (with_config org (configured req) db) in
    (
      set,
      with_config org (seen_at later) set,
      rw allowed (rw there (rw written refl)),
      rw written (rw on (rw stored (rw hashed (rw (text_eq_refl (d ∷ hash)) refl)))),
      refl,
      refl,
      refl,
    )

-- A new resource of an account that is no member makes it one, with the default role.
create_user_joins :
    (same_email : Text → Text → Bool) (ctx : ScimContext) (id user : ℕ) (body : ScimUser)
    (v : UserRow) (db : Db)
    → is_nothing (trim (or body.user_name [])) ≡ false
    → includes b'@' (or (primary_email body) (trim (or body.user_name []))) ≡ true
    → has (named_user ctx.org_id (to_lower (trim (or body.user_name [])))) db.scim_users ≡ false
    → first?
        (λ u. same_email u.email (or (primary_email body) (trim (or body.user_name []))))
        db.users
      ≡ some v
    → has (λ u. u.org_id == ctx.org_id && u.user_id == v.id) db.scim_users ≡ false
    → has (member_at ctx.org_id v.id) db.members ≡ false
    → (row : ScimUserRow) × (db' : Db) × (create_user same_email ctx id user body db
        ≡ ok (row, db'))
      × (first? (member_at ctx.org_id v.id) db'.members
          ≡ some (new_member ctx.org_id v.id ctx.config.default_role))
unfolding create_user
create_user_joins same_email ctx id user body v db named mail fresh found single absent =
    let name = trim (or body.user_name []) in
    let email = or (primary_email body) name in
    let next = provision same_email ctx id user name email body db in
    (
      next.0,
      system_event ctx.org_id "scim.user.create" "user" next.0.user_id next.1,
      rw named (rw mail (rw fresh (rw found (rw single refl)))),
      rw found (joined_as ctx.org_id v.id ctx.config.default_role db.members absent),
    )

-- An admin, who is not an owner, makes an account an owner of the organization: setting owner as the
-- default role of an enabled directory succeeds, a request with the directory's token is admitted
-- after it, and provisioning an account with a valid address, which is neither a member nor
-- provisioned yet, succeeds and makes it an owner.
pub create_user-update_config :
    (sha256 : Text → Text) (same_email : Text → Text → Bool) (now later : ℕ) (p : Principal)
    (org : ℕ) (req : ScimConfigRequest) (old : ScimConfigRow) (token : Text) (d : ℕ) (hash : Text)
    (id user : ℕ) (body : ScimUser) (v : UserRow) (db : Db)
    → require_role now org p.user_id admin db ≡ ok admin
    → first? (config_of org) db.scim_configs ≡ some old
    → old.token_hash ≡ some (d ∷ hash)
    → sha256 token ≡ d ∷ hash
    → req.enabled ≡ true
    → req.default_role ≡ owner
    → is_nothing (trim (or body.user_name [])) ≡ false
    → includes b'@' (or (primary_email body) (trim (or body.user_name []))) ≡ true
    → has (named_user org (to_lower (trim (or body.user_name [])))) db.scim_users ≡ false
    → first?
        (λ u. same_email u.email (or (primary_email body) (trim (or body.user_name []))))
        db.users
      ≡ some v
    → has (λ u. u.org_id == org && u.user_id == v.id) db.scim_users ≡ false
    → has (member_at org v.id) db.members ≡ false
    → (c : ScimConfigRow) × (ctx : ScimContext) × (row : ScimUserRow) × (set : Db) × (opened : Db)
      × (db' : Db) × (update_config now p org req db ≡ ok (c, set))
      × (authenticate sha256 later org token set ≡ ok (ctx, opened))
      × (create_user same_email ctx id user body opened ≡ ok (row, db'))
      × (first? (member_at org v.id) db'.members ≡ some (new_member org v.id owner))
create_user-update_config sha256 same_email now later p org req old token d hash id user body v db
      allowed found stored hashed on top named mail fresh known single absent =
    let (set, opened, wrote, entered, ms, us, ss) =
      update_config-admitted sha256 now later p org req old token admin d hash db allowed found
        stored hashed on in
    let ctx : ScimContext = record { org_id = org; config = configured req old } in
    let (row, db', made, joins) =
      create_user_joins same_email ctx id user body v opened named mail (rw ss fresh) (rw us known)
        (rw ss single) (rw ms absent) in
    (
      configured req old,
      ctx,
      row,
      set,
      opened,
      db',
      wrote,
      entered,
      made,
      joins ∙ (λ i. some (new_member org v.id (top i))),
    )
