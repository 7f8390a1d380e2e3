-- ===== src/Scim/Joined.antt =====
-- The names of the groups of an account after `createGroup` of apps/api/src/scim/scim.service.ts.
use justmail.Prelude.{
  ℕ, ◌≡◌, ◌⊎◌, ◌↔◌, Bool, true, false, ◌&&◌, List, [], ◌∷◌, ◌++◌, Option, some, Text, text_eq,
  text_eq_iff, text_eq_refl, arith, ◌==◌, inl, inr, ◌∙◌, sym, map,
}
use justmail.Prelude.Texts.{trim}
use justmail.Prelude.Table.{select, exclude, first?, has, has-first?, first?-eq-some}
use justmail.Store.{Db, ScimUserRow, ScimGroupRow}
use justmail.Scim.{ScimContext}
use justmail.Scim.Wire.{ScimGroup, or}
use justmail.Scim.Users.{scim_user_at}
use justmail.Scim.Rows.{in_scim_group, is_account, group_names, names_of}
use justmail.Scim.Groups.{new_scim_group, insert_group}
use justmail.Scim.Outside.{set_members-outside}
use justmail.Scim.Names.{
  lists, shows, group_of, group_of-new, has-group_names, has-new_group, add_members-keeps,
  add_members-from, add_members-in, add_members-scim_groups,
}

-- Whether a member row is one of an account, in a group of the name.
abbrev fits : Text → ℕ → ℕ → List ScimUserRow → List ScimGroupRow → ℕ → ℕ → Bool
fits x org user us gs a t =
    is_account org user us (record { group_id = a; scim_user_id = t }) && shows x (group_of a gs)

fits-new :
    (x : Text) (org user : ℕ) (us : List ScimUserRow) (gs : List ScimGroupRow) (g : ScimGroupRow)
    (t : ℕ)
    → has (λ k. k.id == g.id) gs ≡ false
    → fits x org user us (gs ++ g ∷ []) g.id t ≡ true
    → x ≡ g.display_name
fits-new x org user us gs g t fresh h =
    ground (arith, group_of-new gs g fresh, text_eq_iff g.display_name x)

account-found :
    (org sid : ℕ) (us : List ScimUserRow) (s : ScimUserRow)
    → first? (scim_user_at org sid) us ≡ some s
    → has (λ u. u.id == sid && u.user_id == s.user_id && u.org_id == org) us ≡ true
account-found org sid us s found =
    has-first? (scim_user_at org sid)
      (λ u. u.id == sid && u.user_id == s.user_id && u.org_id == org) us s found
      (ground (arith, first?-eq-some (scim_user_at org sid) us s found))

new-fits :
    (org sid : ℕ) (us : List ScimUserRow) (gs : List ScimGroupRow) (g : ScimGroupRow)
    (s : ScimUserRow)
    → has (λ k. k.id == g.id) gs ≡ false
    → first? (scim_user_at org sid) us ≡ some s
    → fits g.display_name org s.user_id us (gs ++ g ∷ []) g.id sid ≡ true
new-fits org sid us gs g s fresh found =
    rw (account-found org sid us s found)
      (rw ((group_of-new gs g fresh).1) (text_eq_refl g.display_name))

-- The groups of an account after it was listed in a new one.
pub create_group-names_of :
    (uuid_of : Text → Option ℕ) (ctx : ScimContext) (id sid : ℕ) (body : ScimGroup) (db : Db)
    (s : ScimUserRow) (x : Text)
    → has (λ g. g.id == id) db.scim_groups ≡ false
    → lists sid (map uuid_of body.members) ≡ true
    → first? (scim_user_at ctx.org_id sid) db.scim_users ≡ some s
    → (has
          (λ y. text_eq y x)
          (names_of ctx.org_id s.user_id (insert_group uuid_of ctx id body db).1)
        ≡ true)
      ↔ ((has (λ y. text_eq y x) (names_of ctx.org_id s.user_id db) ≡ true)
          ⊎ (x ≡ trim (or body.display_name [])))
create_group-names_of uuid_of ctx id sid body db s x fresh listed found =
    let org = ctx.org_id in
    let user = s.user_id in
    let us = db.scim_users in
    let gs = db.scim_groups in
    let g = new_scim_group id org body.external_id (trim (or body.display_name [])) in
    let R = fits x org user us (gs ++ g ∷ []) in
    let sids = map uuid_of body.members in
    let base : Db = record db {
      scim_groups = gs ++ g ∷ [];
      scim_members = exclude (in_scim_group id) db.scim_members;
    } in
    let next = (insert_group uuid_of ctx id body db).1 in
    let groups = add_members-scim_groups ctx id sids base in
    let users = (set_members-outside ctx id sids (record db { scim_groups = gs ++ g ∷ [] })).2 in
    let after : has (λ y. text_eq y x) (names_of org user next)
        ≡ has (λ m. R m.group_id m.scim_user_id) next.scim_members =
      (λ i.
        has (λ y. text_eq y x)
          (group_names (groups i) (select (is_account org user (users i)) next.scim_members)))
      ∙ has-group_names x (gs ++ g ∷ []) (is_account org user us) next.scim_members in
    let before : has (λ m. R m.group_id m.scim_user_id) base.scim_members
        ≡ has (λ y. text_eq y x) (names_of org user db) =
      has-new_group x (is_account org user us) gs g db.scim_members fresh
      ∙ sym (has-group_names x gs (is_account org user us) db.scim_members) in
    (
      λ h. elim (add_members-from R ctx id sids base (sym after ∙ h)) [
        | inl old ↦ inl (sym before ∙ old)
        | inr (t, this) ↦ inr (fits-new x org user us gs g t fresh this)
      ],
      λ k. after ∙ (elim k [
        | inl old ↦ add_members-keeps R ctx id sids base (before ∙ old)
        | inr new ↦ add_members-in R ctx id sid sids base s listed found (
            (λ i. fits (new i) org user us (gs ++ g ∷ []) id sid)
            ∙ new-fits org sid us gs g s fresh found)
      ]),
    )
