-- ===== src/Retention/Keeps.antt =====
-- The loops of the worker's tick of apps/api/src/retention/retention.service.ts and their deletions.
use justmail.Prelude.{
  ℕ, ◌-◌, ◌*◌, ◌<◌, ◌≡◌, Bool, true, false, List, [], ◌∷◌, Option, some, Text, arith, refl,
  Bool-cases, Option-cases, inl, inr, IsIn, if◌then◌else◌, sym, ◌∙◌,
}
use justmail.Prelude.Table.{select}
use justmail.Store.{PolicyRow, Db}
use justmail.Mailboxes.{address, Joined}
use justmail.Retention.{Held, held_mailbox_ids, has_id}
use justmail.Retention.Holds.{is_held, held_mailbox_ids_iff, says}
use justmail.Retention.Pruning.{
  is_nil, boxes_of, is_due, cutoff_of, Expunged, prune_folders, prune_mailbox, prune_boxes,
  prune_org, prune_orgs, run_due_pruning,
}
use justmail.Retention.Spared.{IsDue, IsIn-select, boxes_of_lem}

-- A policy in force has a number of days.
days_known :
    (r : PolicyRow)
    → is_due r ≡ true
    → (days : ℕ) × (r.enabled ≡ true) × (r.delete_after_days ≡ some days) × (0 < days)
days_known r h = elim (Option-cases r.delete_after_days) [
  | inl never ↦ absurd (ground arith)
  | inr (days, known) ↦ (days, ground arith, known, ground arith)
]

cutoff_known :
    (now days : ℕ) (r : PolicyRow)
    → r.delete_after_days ≡ some days
    → cutoff_of now r ≡ now - days * 86400000
cutoff_known now days r h = ground arith

-- Neither answer of `heldMailboxIds` names the mailbox.
not_said :
    (org id : ℕ) (db : Db)
    → Held.org_wide (held_mailbox_ids org db) ≡ false
    → has_id id (Held.ids (held_mailbox_ids org db)) ≡ false
    → is_held org id db ≡ false
not_said org id db a b =
    let same : says id (held_mailbox_ids org db) ≡ is_held org id db =
      held_mailbox_ids_iff org id db in
    sym same ∙ rw a b

module _ {ℓ} {M : Type 0} (connects : Text → M → Bool) (locks : Text → Text → M → Bool)
    (search : Text → Text → ℕ → M → Option (List ℕ))
    (expunge : Text → Text → List ℕ → M → Expunged M) (P : M → Type ℓ) where
  -- The deletions from a folder of an address, of what is older than the time, keep `P`.
  abbrev pub KeptBy : Text → Text → ℕ → Type ℓ
  KeptBy a f cutoff =
      (m : M) (uids : List ℕ)
      → search a f cutoff m ≡ some uids
      → P m
      → P (Expunged.mail (expunge a f uids m))

  abbrev folders_pruned : Text → ℕ → List Text → M → M
  folders_pruned = prune_folders connects locks search expunge

  prune_folders_keeps :
      (a : Text) (cutoff : ℕ) (fs : List Text) (m : M)
      → ((f : Text) → IsIn f fs → KeptBy a f cutoff)
      → P m
      → P (folders_pruned a cutoff fs m)
  unfolding prune_folders
  prune_folders_keeps a cutoff [] m keep h = h
  prune_folders_keeps a cutoff (f ∷ fs) m keep h =
      let later : (g : Text) → IsIn g fs → KeptBy a g cutoff = λ g i. keep g (inr i) in
      elim (Bool-cases (locks a f m)) [
        | inr absent ↦ rw absent (prune_folders_keeps a cutoff fs m later h)
        | inl locked ↦ rw locked (elim (Option-cases (search a f cutoff m)) [
          | inl threw ↦ rw threw h
          | inr (uids, found) ↦
              let done = keep f (inl refl) m uids found h in
              rw found (elim (Bool-cases (is_nil uids)) [
                | inl nothing ↦ rw nothing (prune_folders_keeps a cutoff fs m later h)
                | inr some_uids ↦
                    rw some_uids (elim (Bool-cases (Expunged.threw (expunge a f uids m))) [
                      | inl threw ↦ rw threw done
                      | inr went ↦ rw went (
                          prune_folders_keeps a cutoff fs (Expunged.mail (expunge a f uids m)) later
                            done)
                    ])
              ])
        ])
      ]

  prune_boxes_keeps :
      (held : List ℕ) (folders : List Text) (cutoff : ℕ) (bs : List Joined) (m : M)
      → ((b : Joined)
          → IsIn b bs
          → has_id b.mailbox.id held ≡ false
          → (f : Text) → IsIn f folders
          → KeptBy (address b.mailbox b.domain) f cutoff)
      → P m
      → P (prune_boxes connects locks search expunge held folders cutoff bs m)
  unfolding prune_boxes prune_mailbox
  prune_boxes_keeps held folders cutoff [] m keep h = h
  prune_boxes_keeps held folders cutoff (b ∷ bs) m keep h =
      let later : (c : Joined)
          → IsIn c bs
          → has_id c.mailbox.id held ≡ false
          → (f : Text) → IsIn f folders
          → KeptBy (address c.mailbox c.domain) f cutoff =
        λ c i. keep c (inr i) in
      let a = address b.mailbox b.domain in
      elim (Bool-cases (has_id b.mailbox.id held)) [
        | inl is_in ↦ rw is_in (prune_boxes_keeps held folders cutoff bs m later h)
        | inr out ↦ rw out (
            prune_boxes_keeps held folders cutoff bs
              (if connects a m then folders_pruned a cutoff folders m else m) later
              (elim (Bool-cases (connects a m)) [
                | inr refused ↦ rw refused h
                | inl connected ↦
                    rw connected (prune_folders_keeps a cutoff folders m (keep b (inl refl) out) h)
              ]))
      ]

  module _ (now : ℕ) (db : Db)
      (keep : (a f : Text) (cutoff : ℕ) → IsDue now db a f cutoff → KeptBy a f cutoff) where
    prune_org_keeps :
        (r : PolicyRow) (m : M)
        → IsIn r db.policies
        → is_due r ≡ true
        → P m
        → P (prune_org connects locks search expunge now db r m)
    unfolding prune_org
    prune_org_keeps r m i due h = elim (Bool-cases (is_nil r.folders)) [
      | inl no_folder ↦ rw no_folder h
      | inr folders ↦ rw folders (elim (Bool-cases (Held.org_wide (held_mailbox_ids r.org_id db))) [
        | inl all_held ↦ rw all_held h
        | inr some_held ↦
            let (days, on, known, more) = days_known r due in
            rw some_held (
              prune_boxes_keeps (Held.ids (held_mailbox_ids r.org_id db)) r.folders
                (cutoff_of now r) (boxes_of r.org_id db.domains db.mailboxes) m
                (λ b at free f named.
                  let (stored, live, joined) = boxes_of_lem r.org_id db.domains db.mailboxes b at in
                  keep (address b.mailbox b.domain) f (cutoff_of now r) (record {
                    policy = r;
                    box = b.mailbox;
                    domain = b.domain;
                    days = days;
                    known = i;
                    enabled = on;
                    age = known;
                    positive = more;
                    before = cutoff_known now days r known;
                    named = named;
                    stored = stored;
                    live = live;
                    domain_of = joined;
                    at = refl;
                    not_held = not_said r.org_id b.mailbox.id db some_held free;
                  }))
                h)
      ])
    ]

    prune_orgs_keeps :
        (rs : List PolicyRow) (m : M)
        → ((r : PolicyRow) → IsIn r rs → IsIn r db.policies × (is_due r ≡ true))
        → P m
        → P (prune_orgs connects locks search expunge now db rs m)
    unfolding prune_orgs
    prune_orgs_keeps [] m all h = h
    prune_orgs_keeps (r ∷ rs) m all h =
        let (i, due) = all r (inl refl) in
        prune_orgs_keeps rs (prune_org connects locks search expunge now db r m)
          (λ q j. all q (inr j)) (prune_org_keeps r m i due h)

    -- Whatever the deletions that are due leave true, a round of the worker leaves true: it deletes
    -- nothing else. A deletion is due in a folder that an enabled policy with a positive age names, of
    -- an active mailbox of its organization that no active hold extends to, of the messages that a
    -- search before the policy's time finds.
    pub run_due_pruning_keeps :
        (configured : Bool) (m : M)
        → P m
        → P (run_due_pruning connects locks search expunge configured now db m)
    unfolding run_due_pruning
    run_due_pruning_keeps false m h = h
    run_due_pruning_keeps true m h =
        prune_orgs_keeps (select is_due db.policies) m (λ r i. IsIn-select is_due r db.policies i) h
