-- ===== src/Filters.antt =====
-- apps/api/src/webmail/sieve.service.ts. The mail server is a function from an address to its active
-- script; `push` is the exchange of `pushScript`, with the message of its error; `unlocked` is the
-- password that the credential store has for the mailbox.
pub mod Activation
pub mod Order
use justmail.Prelude.{
  ℕ, suc, Bool, true, false, not, ◌&&◌, ◌||◌, List, [], ◌∷◌, ◌++◌, map, Option, none, some, Text,
  ltb, ◌==◌, max, if◌then◌else◌, Result, ok, err, forbidden, not_found, bad_gateway, ◌>>=◌, ◌>>◌,
  throw_if,
}
use justmail.Prelude.Table.{select, exclude, modify, first?, has}
use justmail.Store.{member, DomainRow, MailboxRow, FilterRow, Db, Principal}
use justmail.Sieve.{Rule, compile_rule, compile_script}
use justmail.Orgs.{require_role, is_none}
use justmail.Orgs.Members.{user_event}
use justmail.Mailboxes.{find_box, address}

-- Of each address, the active script.
abbrev pub Server : Type 0
Server = Text → Option Text

-- What a request leaves behind, whether it succeeds or throws.
pub record Reply {ℓ} (A : Type ℓ) : Type ℓ where
  pub answer : Result A
  pub db : Db
  pub server : Server

-- The session is that of another mailbox, or of another organization.
abbrev pub is_foreign : Principal → ℕ → ℕ → ℕ → Bool
is_foreign p bound org mailbox =
    not (bound == mailbox) || (elim p.org_id [ none ↦ false | some o ↦ not (o == org) ])

abbrev pub may_use : ℕ → Principal → ℕ → ℕ → Db → Result (Unit {0})
may_use now p org mailbox db = elim p.mailbox_id [
  | some bound ↦ throw_if (is_foreign p bound org mailbox) (forbidden "Mailbox not accessible")
  | none ↦ (do require_role now org p.user_id member db; ok tt)
]

-- `resolveMailbox`
unfoldable pub resolve_mailbox : ℕ → Principal → ℕ → ℕ → Db → Result Text
resolve_mailbox now p org mailbox db = do
  may_use now p org mailbox db
  box ← find_box org (first? (λ m. m.id == mailbox) db.mailboxes) db
  ok (address box.mailbox box.domain)

-- A row behind those of its priority, which were created before it.
abbrev pub insert_by : FilterRow → List FilterRow → List FilterRow
insert_by f [] = f ∷ []
insert_by f (g ∷ rest) =
    let later = insert_by f rest in if ltb f.priority g.priority then f ∷ g ∷ rest else g ∷ later

-- ORDER BY priority, created_at
abbrev pub sort_into : List FilterRow → List FilterRow → List FilterRow
sort_into sorted [] = sorted
sort_into sorted (f ∷ rest) = sort_into (insert_by f sorted) rest

abbrev pub in_mailbox : ℕ → FilterRow → Bool
in_mailbox mailbox f = f.mailbox_id == mailbox

-- `loadRules`
unfoldable pub load_rules : ℕ → Db → List FilterRow
load_rules mailbox db = sort_into [] (select (in_mailbox mailbox) db.filters)

abbrev pub enabled_rules : List FilterRow → List Rule
enabled_rules rows = map (λ f. f.rule) (select (λ f. f.enabled) rows)

abbrev pub pushed : Server × Option Text → Result (Unit {0}) × Server
pushed (server, none) = (ok tt, server)
pushed (server, some message) =
    (err (bad_gateway "Filter saved, but activating it on the mail server failed"), server)

-- COALESCE(max(priority) + 1, 0)
abbrev pub next_priority : List FilterRow → ℕ
next_priority [] = 0
next_priority (f ∷ rest) = max (suc f.priority) (next_priority rest)

-- `SieveRuleRequest`
pub record SieveRuleRequest : Type 0 where
  pub enabled : Bool
  pub rule : Rule

abbrev pub new_row : ℕ → ℕ → ℕ → SieveRuleRequest → Db → FilterRow
new_row id org mailbox input db = record {
  id = id;
  org_id = org;
  mailbox_id = mailbox;
  priority = next_priority (select (in_mailbox mailbox) db.filters);
  enabled = input.enabled;
  rule = input.rule;
  script_source = compile_rule input.rule;
}

abbrev pub filter_at : ℕ → ℕ → FilterRow → Bool
filter_at mailbox id f = f.id == id && f.mailbox_id == mailbox

abbrev pub rewritten : SieveRuleRequest → FilterRow → FilterRow
rewritten input f = record f {
  enabled = input.enabled;
  rule = input.rule;
  script_source = compile_rule input.rule;
}

-- What follows `resolveMailbox`, where it does not throw.
abbrev pub resolved {ℓ} : {A : Type ℓ} → Result Text → (Text → Reply A) → Db → Server → Reply A
resolved (err e) next db server = record { answer = err e; db = db; server = server }
resolved (ok address) next db server = next address

abbrev pub missing_filter {ℓ} : {A : Type ℓ} → Db → Server → Reply A
missing_filter db server = record {
  answer = err (not_found "Filter not found");
  db = db;
  server = server;
}

abbrev pub with_rule : ℕ → ℕ → ℕ → SieveRuleRequest → Db → Db
with_rule id org mailbox input db = record db {
  filters = db.filters ++ new_row id org mailbox input db ∷ [];
}

abbrev pub rewrite : ℕ → ℕ → SieveRuleRequest → Db → Db
rewrite mailbox id input db = record db {
  filters = modify (filter_at mailbox id) (rewritten input) db.filters;
}

module _ (push : Text → Text → Text → Server → Server × Option Text) (unlocked : Option Text) where
  -- `sync`
  unfoldable pub sync : ℕ → Text → Db → Server → Result (Unit {0}) × Server
  sync mailbox address db server = elim unlocked [
    | none ↦ (err (forbidden "Mailbox locked"), server)
    | some password ↦
        pushed
          (push address password (compile_script (enabled_rules (load_rules mailbox db))) server)
  ]

  -- What follows the statement of a request: the upload, and where it succeeds the audit log.
  abbrev pub finish {ℓ} : {A : Type ℓ} → A → (Db → Db) → Db → Result (Unit {0}) × Server → Reply A
  finish answer note db (ok u, server) = record {
    answer = ok answer;
    db = note db;
    server = server;
  }
  finish answer note db (err e, server) = record { answer = err e; db = db; server = server }

  -- `createRule`
  unfoldable pub create_rule :
      ℕ → ℕ → Principal → ℕ → ℕ → SieveRuleRequest → Db → Server → Reply FilterRow
  create_rule now id p org mailbox input db server =
      let db' = with_rule id org mailbox input db in
      resolved (resolve_mailbox now p org mailbox db)
        (λ address.
          finish (new_row id org mailbox input db)
            (user_event org p.user_id "webmail.sieve.create" "mailbox" mailbox) db'
            (sync mailbox address db' server))
        db server

  abbrev pub updated : Principal → ℕ → ℕ → Text → Db → Server → Option FilterRow → Reply FilterRow
  updated p org mailbox address db server none = missing_filter db server
  updated p org mailbox address db server (some row) =
      finish row (user_event org p.user_id "webmail.sieve.update" "mailbox" mailbox) db
        (sync mailbox address db server)

  -- `updateRule`
  unfoldable pub update_rule :
      ℕ → Principal → ℕ → ℕ → ℕ → SieveRuleRequest → Db → Server → Reply FilterRow
  update_rule now p org mailbox id input db server =
      let db' = rewrite mailbox id input db in
      resolved (resolve_mailbox now p org mailbox db)
        (λ address.
          updated p org mailbox address db' server (first? (filter_at mailbox id) db'.filters))
        db server

  abbrev pub deleted : Principal → ℕ → ℕ → ℕ → Text → Db → Server → Bool → Reply (Unit {0})
  deleted p org mailbox id address db server false = missing_filter db server
  deleted p org mailbox id address db server true =
      let db' : Db = record db { filters = exclude (filter_at mailbox id) db.filters } in
      finish tt (user_event org p.user_id "webmail.sieve.delete" "mailbox" mailbox) db'
        (sync mailbox address db' server)

  -- `deleteRule`
  unfoldable pub delete_rule : ℕ → Principal → ℕ → ℕ → ℕ → Db → Server → Reply (Unit {0})
  delete_rule now p org mailbox id db server =
      resolved (resolve_mailbox now p org mailbox db)
        (λ address.
          deleted p org mailbox id address db server (has (filter_at mailbox id) db.filters))
        db server

  -- `reconcile`; `lease` is the answer of Redis, where there is one.
  abbrev pub reconcile : Option Bool → Text → List FilterRow → Server → Server
  reconcile lease address rows server = elim (enabled_rules rows) [
    | [] ↦ server
    | r ∷ rest ↦ elim unlocked [
      | none ↦ server
      | some password ↦ elim lease [
        | some false ↦ server
        | _ ↦ (push address password (compile_script (r ∷ rest)) server).0
      ]
    ]
  ]

  -- `listRules`
  unfoldable pub list_rules :
      Option Bool → ℕ → Principal → ℕ → ℕ → Db → Server → Reply (List FilterRow)
  list_rules lease now p org mailbox db server =
      let rows = load_rules mailbox db in
      resolved (resolve_mailbox now p org mailbox db)
        (λ address. record {
          answer = ok rows;
          db = db;
          server = reconcile lease address rows server;
        })
        db server
