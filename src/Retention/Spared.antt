-- ===== src/Retention/Spared.antt =====
-- When a deletion by the worker of apps/api/src/retention/retention.service.ts is due.
use justmail.Prelude.{
  none, ℕ, ◌-◌, ◌*◌, ◌<◌, ◌≡◌, Bool, true, false, List, [], ◌∷◌, some, Text, arith, refl,
  Bool-cases, Option-cases, inl, inr, IsIn, subst, sym,
}
use justmail.Prelude.Table.{select, first?}
use justmail.Store.{active, Status, MailboxRow, DomainRow, PolicyRow, Db}
use justmail.Mailboxes.{domain_at, address, Joined}
use justmail.Retention.Holds.{is_held}
use justmail.Retention.Pruning.{is_live, boxes_of}

-- A policy in force reaches the folder of an address, with this time before which it deletes: the
-- mailbox is active, is of the policy's organization, and no active hold extends to it.
pub record IsDue (now : ℕ) (db : Db) (a folder : Text) (cutoff : ℕ) : Type 0 where
  pub policy : PolicyRow
  pub box : MailboxRow
  pub domain : DomainRow
  pub days : ℕ
  pub known : IsIn policy db.policies
  pub enabled : policy.enabled ≡ true
  pub age : policy.delete_after_days ≡ some days
  pub positive : 0 < days
  pub before : cutoff ≡ now - days * 86400000
  pub named : IsIn folder policy.folders
  pub stored : IsIn box db.mailboxes
  pub live : box.status ≡ active
  pub domain_of : first? (domain_at policy.org_id box.domain_id) db.domains ≡ some domain
  pub at : a ≡ address box domain
  pub not_held : is_held policy.org_id box.id db ≡ false

pub IsIn-select :
    (p : PolicyRow → Bool) (x : PolicyRow) (xs : List PolicyRow)
    → IsIn x (select p xs)
    → IsIn x xs × (p x ≡ true)
IsIn-select p x [] h = absurd h
IsIn-select p x (y ∷ ys) h = elim (Bool-cases (p y)) [
  | inr other ↦
      let (h1, e) = IsIn-select p x ys (subst (IsIn x) {x = select p (y ∷ ys)} (rw other refl) h) in
      (inr h1, e)
  | inl chosen ↦
      elim ((subst (IsIn x) {x = select p (y ∷ ys)} {y = y ∷ select p ys} (rw chosen refl) h)) [
        | inl same ↦ (subst (λ z. IsIn z (y ∷ ys)) (sym same) (inl refl), rw same chosen)
        | inr later ↦ let (h1, e) = IsIn-select p x ys later in (inr h1, e)
      ]
]

-- What a row of the join is made of.
abbrev pub IsJoined : ℕ → List DomainRow → List MailboxRow → Joined → Type 0
IsJoined org ds ms b =
    IsIn b.mailbox ms
    × (b.mailbox.status ≡ active)
    × (first? (domain_at org b.mailbox.domain_id) ds ≡ some b.domain)

later_joined :
    (org : ℕ) (ds : List DomainRow) (m : MailboxRow) (ms : List MailboxRow) (b : Joined)
    → IsJoined org ds ms b
    → IsJoined org ds (m ∷ ms) b
later_joined org ds m ms b (h, live, d) = (inr h, live, d)

is_live_lem : (s : Status) → is_live s ≡ true → s ≡ active
is_live_lem s h = ground arith

boxes_absent :
    (org : ℕ) (ds : List DomainRow) (m : MailboxRow) (ms : List MailboxRow)
    → first? (domain_at org m.domain_id) ds ≡ none
    → boxes_of org ds (m ∷ ms) ≡ boxes_of org ds ms
unfolding boxes_of
boxes_absent org ds m ms h = ground arith

boxes_dead :
    (org : ℕ) (ds : List DomainRow) (m : MailboxRow) (ms : List MailboxRow) (d : DomainRow)
    → first? (domain_at org m.domain_id) ds ≡ some d
    → is_live m.status ≡ false
    → boxes_of org ds (m ∷ ms) ≡ boxes_of org ds ms
unfolding boxes_of
boxes_dead org ds m ms d h k = ground arith

boxes_live :
    (org : ℕ) (ds : List DomainRow) (m : MailboxRow) (ms : List MailboxRow) (d : DomainRow)
    → first? (domain_at org m.domain_id) ds ≡ some d
    → is_live m.status ≡ true
    → boxes_of org ds (m ∷ ms) ≡ record { mailbox = m; domain = d } ∷ boxes_of org ds ms
unfolding boxes_of
boxes_live org ds m ms d h k = ground arith

pub boxes_of_lem :
    (org : ℕ) (ds : List DomainRow) (ms : List MailboxRow) (b : Joined)
    → IsIn b (boxes_of org ds ms)
    → IsJoined org ds ms b
unfolding boxes_of
boxes_of_lem org ds [] b h = absurd h
boxes_of_lem org ds (m ∷ ms) b h = elim (Option-cases (first? (domain_at org m.domain_id) ds)) [
  | inl missing ↦ later_joined org ds m ms b (
      boxes_of_lem org ds ms b
        (subst (IsIn b) {x = boxes_of org ds (m ∷ ms)} (boxes_absent org ds m ms missing) h))
  | inr (d, found) ↦ elim (Bool-cases (is_live m.status)) [
    | inr dead ↦ later_joined org ds m ms b (
        boxes_of_lem org ds ms b
          (subst (IsIn b) {x = boxes_of org ds (m ∷ ms)} (boxes_dead org ds m ms d found dead) h))
    | inl live ↦
        let first : Joined = record { mailbox = m; domain = d } in
        elim ((subst (IsIn b) {x = boxes_of org ds (m ∷ ms)} {y = first ∷ boxes_of org ds ms}
          (boxes_live org ds m ms d found live) h)) [
            | inr later ↦ later_joined org ds m ms b (boxes_of_lem org ds ms b later)
            | inl same ↦
                subst (IsJoined org ds (m ∷ ms)) (sym same)
                  (inl refl, is_live_lem m.status live, found)
          ]
  ]
]
