-- ===== src/Retention/Pruning.antt =====
-- The worker's tick of apps/api/src/retention/retention.service.ts. An exception of the IMAP client
-- ends the work on its mailbox, as the `catch` around `pruneMailbox` has it.
use justmail.Prelude.{
  ℕ, ◌-◌, ◌*◌, Bool, true, false, ◌&&◌, List, [], ◌∷◌, Option, none, some, Text, ltb, if◌then◌else◌,
}
use justmail.Prelude.Table.{select, first?}
use justmail.Store.{active, Status, MailboxRow, DomainRow, PolicyRow, Db}
use justmail.Mailboxes.{domain_at, address, Joined}
use justmail.Retention.{held_mailbox_ids, has_id}

abbrev pub is_nil {ℓ} : {A : Type ℓ} → List A → Bool
is_nil [] = true
is_nil (x ∷ xs) = false

abbrev pub is_live : Status → Bool
is_live active = true
is_live _ = false

-- The join of the active mailboxes with the domains of the organization.
unfoldable pub boxes_of : ℕ → List DomainRow → List MailboxRow → List Joined
boxes_of org ds [] = []
boxes_of org ds (m ∷ ms) =
    let rest = boxes_of org ds ms in
    elim (first? (domain_at org m.domain_id) ds) [
      | none ↦ rest
      | some d ↦ if is_live m.status then record { mailbox = m; domain = d } ∷ rest else rest
    ]

-- `enabled = true AND delete_after_days IS NOT NULL AND delete_after_days > 0`
abbrev pub positive : Option ℕ → Bool
positive none = false
positive (some days) = ltb 0 days

abbrev pub is_due : PolicyRow → Bool
is_due r = r.enabled && positive r.delete_after_days

abbrev days_of : Option ℕ → ℕ
days_of none = 0
days_of (some days) = days

-- `Date.now() - delete_after_days * 86_400_000`; a time before 1970 is 0, older than any message.
abbrev pub cutoff_of : ℕ → PolicyRow → ℕ
cutoff_of now r = now - days_of r.delete_after_days * 86400000

-- What `messageDelete` leaves, and whether it threw.
pub record Expunged {ℓ} (M : Type ℓ) : Type ℓ where
  pub mail : M
  pub threw : Bool

-- The IMAP client: `connects` to a mailbox, `locks` a folder that is there, `search` for messages
-- before a time (none: it threw), `expunge` of messages of a folder.
module _ {ℓ} {M : Type ℓ} (connects : Text → M → Bool) (locks : Text → Text → M → Bool)
    (search : Text → Text → ℕ → M → Option (List ℕ))
    (expunge : Text → Text → List ℕ → M → Expunged M) where
  -- The loop of `pruneMailbox`.
  unfoldable pub prune_folders : Text → ℕ → List Text → M → M
  prune_folders a cutoff [] m = m
  prune_folders a cutoff (f ∷ fs) m =
      let skip = prune_folders a cutoff fs m in
      if locks a f m
      then elim (search a f cutoff m) [
        | none ↦ m
        | some uids ↦
            let done = expunge a f uids m in
            let rest = prune_folders a cutoff fs done.mail in
            if is_nil uids then skip else if done.threw then done.mail else rest
      ]
      else skip

  -- `pruneMailbox`
  unfoldable pub prune_mailbox : Text → List Text → ℕ → M → M
  prune_mailbox a folders cutoff m = if connects a m then prune_folders a cutoff folders m else m

  -- The loop of `pruneOrg`.
  unfoldable pub prune_boxes : List ℕ → List Text → ℕ → List Joined → M → M
  prune_boxes held folders cutoff [] m = m
  prune_boxes held folders cutoff (b ∷ bs) m = prune_boxes held folders cutoff bs (
      if has_id b.mailbox.id held
      then m
      else prune_mailbox (address b.mailbox b.domain) folders cutoff m)

  -- `pruneOrg`
  unfoldable pub prune_org : ℕ → Db → PolicyRow → M → M
  prune_org now db policy m =
      let held = held_mailbox_ids policy.org_id db in
      if is_nil policy.folders
      then m
      else if held.org_wide
      then m
      else prune_boxes held.ids policy.folders (cutoff_of now policy)
          (boxes_of policy.org_id db.domains db.mailboxes) m

  unfoldable pub prune_orgs : ℕ → Db → List PolicyRow → M → M
  prune_orgs now db [] m = m
  prune_orgs now db (policy ∷ ps) m = prune_orgs now db ps (prune_org now db policy m)

  -- `runDuePruning`; `configured` says whether there is a master user.
  unfoldable pub run_due_pruning : Bool → ℕ → Db → M → M
  run_due_pruning configured now db m =
      if configured then prune_orgs now db (select is_due db.policies) m else m
