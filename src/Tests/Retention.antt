-- ===== src/Tests/Retention.antt =====
-- Legal holds and the worker's tick.
use justmail.Prelude.{
  ℕ, Bool, true, false, [], ◌∷◌, List, some, none, Option, Text, codes, arith, ap, inl, inr, ◌≢◌,
  All,
}
use justmail.Store.{MailboxRow, HoldRow, PolicyRow, Db}
use justmail.Mailboxes.{remove}
use justmail.Retention.{create, release, update_policy, UpdateRetentionRequest}
use justmail.Retention.Holds.{AreSingle}
use justmail.Retention.Pruning.{Expunged, run_due_pruning}
use justmail.Retention.Spared.{IsDue}
use justmail.Retention.Keeps.{run_due_pruning_keeps}
use justmail.Tests.Data.{value, actor, hold, office}

office-AreSingle : AreSingle office
office-AreSingle org scope = ground arith

abbrev holding : HoldRow × Db
holding = value (hold, office) (create 9 71 (actor 1) 1 none (codes "audit") office)

abbrev freed : Db
freed = value office (release 9 (actor 1) 1 70 office)

abbrev fresh : ℕ → ℕ
fresh i = i

abbrev emptied : Db
emptied = value office (remove fresh 9 (actor 2) 1 20 office)

abbrev asked : UpdateRetentionRequest
asked = record { enabled = some false; delete_after_days = none; folders = none }

abbrev paused : Db
paused = value office (update_policy [] 9 (actor 1) 1 asked office)

-- A mail store as the addresses from which messages were deleted; every search finds one message.
abbrev Deleted : Type 0
Deleted = List Text

abbrev reaches : Text → Deleted → Bool
reaches a m = true

abbrev opens : Text → Text → Deleted → Bool
opens a f m = true

abbrev finds : Text → Text → ℕ → Deleted → Option (List ℕ)
finds a f cutoff m = some (7 ∷ [])

abbrev deletes : Text → Text → List ℕ → Deleted → Expunged Deleted
deletes a f uids m = record { mail = a ∷ m; threw = false }

-- Nothing was deleted from the held mailbox.
abbrev IsUntouched : Deleted → Type 0
IsUntouched = All (λ a. a ≢ codes "a@ex.org")

held_not_due : (a f : Text) (cutoff : ℕ) → IsDue 9000000000 office a f cutoff → a ≢ codes "a@ex.org"
held_not_due a f cutoff due e = elim (IsDue.known due) [
  | inr never ↦ never
  | inl same ↦ elim (IsDue.stored due) [
    | inl held ↦
        let org = ap (λ (r : PolicyRow). r.org_id) same in
        let id = ap (λ (m : MailboxRow). m.id) held in
        absurd (ground (arith, rw (org, id) at (IsDue.not_held due)))
    | inr (inl other) ↦
        let local = ap (λ (m : MailboxRow). m.local_part) other in
        absurd (ground (arith, local, IsDue.at due, e))
    | inr (inr never) ↦ never
  ]
]

run_due_pruning_keeps_example :
    IsUntouched (run_due_pruning reaches opens finds deletes true 9000000000 office [])
run_due_pruning_keeps_example =
    run_due_pruning_keeps reaches opens finds deletes IsUntouched 9000000000 office
      (λ a f cutoff due m uids found h. (held_not_due a f cutoff due, h)) true [] tt
