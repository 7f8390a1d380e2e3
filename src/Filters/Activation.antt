-- ===== src/Filters/Activation.antt =====
-- Which script is active after a request to apps/api/src/webmail/sieve.service.ts.
use justmail.Prelude.{
  ℕ, ◌≡◌, Bool, true, false, Option, none, some, Text, refl, ◌∙◌, ap, sym, Result, ok, err, Problem,
  not_found,
}
use justmail.Prelude.Table.{first?, has, exclude}
use justmail.Store.{FilterRow, Db, Principal}
use justmail.Orgs.Members.{user_event}
use justmail.Sieve.{compile_script}
use justmail.Filters.{
  Server, Reply, resolve_mailbox, load_rules, enabled_rules, pushed, SieveRuleRequest, new_row,
  filter_at, sync, finish, create_rule, update_rule, updated, delete_rule, deleted, resolved,
  rewrite, with_rule,
}

-- An exchange with ManageSieve that reports no error has made the script the active one.
abbrev pub Activates : (Text → Text → Text → Server → Server × Option Text) → Type 0
Activates push =
    (address password script : Text) (server : Server)
    → (push address password script server).1 ≡ none
    → (push address password script server).0 address ≡ some script

-- The script that stands for the enabled rules of a mailbox.
abbrev pub script_of : ℕ → Db → Text
script_of mailbox db = compile_script (enabled_rules (load_rules mailbox db))

module _ (push : Text → Text → Text → Server → Server × Option Text) (unlocked : Option Text) where
  -- A request of a caller for a mailbox that succeeded, with what it leaves behind.
  pub data Done (now : ℕ) (p : Principal) (org mailbox : ℕ) (db : Db) (server : Server) (db' : Db)
      (server' : Server) : Type 0 where
    by_create :
        (id : ℕ) (input : SieveRuleRequest) (row : FilterRow)
        → create_rule push unlocked now id p org mailbox input db server
          ≡ record { answer = ok row; db = db'; server = server' }
        → Done now p org mailbox db server db' server'
    by_update :
        (id : ℕ) (input : SieveRuleRequest) (row : FilterRow)
        → update_rule push unlocked now p org mailbox id input db server
          ≡ record { answer = ok row; db = db'; server = server' }
        → Done now p org mailbox db server db' server'
    by_delete :
        (id : ℕ)
        → delete_rule push unlocked now p org mailbox id db server
          ≡ record { answer = ok tt; db = db'; server = server' }
        → Done now p org mailbox db server db' server'

pushed-eq-ok :
    (r : Server × Option Text) (u : Unit {0}) (server : Server)
    → pushed r ≡ (ok u, server)
    → (r.1 ≡ none) × (r.0 ≡ server)
pushed-eq-ok (s, none) u server h = (refl, ap (λ x. x.1) h)
pushed-eq-ok (s, some message) u server h = absurd (cc)

sync-active :
    (push : Text → Text → Text → Server → Server × Option Text) (unlocked : Option Text)
    (mailbox : ℕ) (address : Text) (db : Db) (server server' : Server) (u : Unit {0})
    → Activates push
    → sync push unlocked mailbox address db server ≡ (ok u, server')
    → server' address ≡ some (script_of mailbox db)
unfolding sync
sync-active push none mailbox address db server server' u activates h = absurd (cc)
sync-active push (some password) mailbox address db server server' u activates h =
    let exchange = push address password (script_of mailbox db) server in
    let (quiet, same) = pushed-eq-ok exchange u server' h in
    sym (ap (λ (s : Server). s address) same)
    ∙ activates address password (script_of mailbox db) server quiet

module _ (push : Text → Text → Text → Server → Server × Option Text) (unlocked : Option Text)
    {A : Type 0} where
  finish-eq-ok :
      (a b : A) (note : Db → Db) (db db' : Db) (server : Server) (r : Result (Unit {0}) × Server)
      → finish push unlocked a note db r ≡ record { answer = ok b; db = db'; server = server }
      → (r ≡ (ok tt, server)) × (note db ≡ db')
  finish-eq-ok a b note db db' server (ok u, s) h =
      (ap (λ (x : Reply A). (ok tt, x.server)) h, ap (λ (x : Reply A). x.db) h)
  finish-eq-ok a b note db db' server (err e, s) h =
      absurd (let answers = ap (λ (x : Reply A). x.answer) h in cc)

  finish-active :
      (a b : A) (mailbox : ℕ) (address : Text) (note : Db → Db) (db db' : Db)
      (server server' : Server)
      → Activates push
      → (note db).filters ≡ db.filters
      → finish push unlocked a note db (sync push unlocked mailbox address db server)
        ≡ record { answer = ok b; db = db'; server = server' }
      → server' address ≡ some (script_of mailbox db')
  unfolding load_rules
  finish-active a b mailbox address note db db' server server' activates same h =
      let (done, noted) =
        finish-eq-ok a b note db db' server' (sync push unlocked mailbox address db server) h in
      let rows : db'.filters ≡ db.filters = sym (ap (λ (x : Db). x.filters) noted) ∙ same in
      rw rows (sync-active push unlocked mailbox address db server server' tt activates done)

failed-not-ok :
    {A : Type 0} (e : Problem) (a : A) (db db' : Db) (server server' : Server)
    → ◌≡◌ {A = Reply A}
        (record { answer = err e; db = db; server = server })
        (record { answer = ok a; db = db'; server = server' })
    → ⊥
failed-not-ok {A = A} e a db db' server server' h =
    let answers = ap (λ (x : Reply A). x.answer) h in absurd (cc)

resolved-eq-ok :
    {A : Type 0} (r : Result Text) (next : Text → Reply A) (db db' : Db) (server server' : Server)
    (a : A)
    → resolved r next db server ≡ record { answer = ok a; db = db'; server = server' }
    → (address : Text) × (next address ≡ record { answer = ok a; db = db'; server = server' })
      × (r ≡ ok address)
resolved-eq-ok (ok address) next db db' server server' a h = (address, h, refl)
resolved-eq-ok (err e) next db db' server server' a h =
    absurd (failed-not-ok e a db db' server server' h)

updated-active :
    (push : Text → Text → Text → Server → Server × Option Text) (unlocked : Option Text)
    (p : Principal) (org mailbox : ℕ) (address : Text) (db db' : Db) (server server' : Server)
    (found : Option FilterRow) (row : FilterRow)
    → Activates push
    → updated push unlocked p org mailbox address db server found
      ≡ record { answer = ok row; db = db'; server = server' }
    → server' address ≡ some (script_of mailbox db')
updated-active push unlocked p org mailbox address db db' server server' none row activates h =
    absurd (failed-not-ok (not_found "Filter not found") row db db' server server' h)
updated-active push unlocked p org mailbox address db db' server server' (some r) row activates h =
    finish-active push unlocked r row mailbox address
      (user_event org p.user_id "webmail.sieve.update" "mailbox" mailbox) db db' server server'
      activates refl h

deleted-active :
    (push : Text → Text → Text → Server → Server × Option Text) (unlocked : Option Text)
    (p : Principal) (org mailbox id : ℕ) (address : Text) (db db' : Db) (server server' : Server)
    (there : Bool)
    → Activates push
    → deleted push unlocked p org mailbox id address db server there
      ≡ record { answer = ok tt; db = db'; server = server' }
    → server' address ≡ some (script_of mailbox db')
deleted-active push unlocked p org mailbox id address db db' server server' false activates h =
    absurd (failed-not-ok (not_found "Filter not found") tt db db' server server' h)
deleted-active push unlocked p org mailbox id address db db' server server' true activates h =
    finish-active push unlocked tt tt mailbox address
      (user_event org p.user_id "webmail.sieve.delete" "mailbox" mailbox)
      (record db { filters = exclude (filter_at mailbox id) db.filters }) db' server server'
      activates refl h

-- Where an exchange that reports no error makes its script the active one: after a filter of a
-- mailbox was created, changed or deleted successfully, the script that is active for the address of
-- the mailbox is the one compiled from its enabled rules as they are stored then, in their order.
pub Done-active :
    (push : Text → Text → Text → Server → Server × Option Text) (unlocked : Option Text) (now : ℕ)
    (p : Principal) (org mailbox : ℕ) (db db' : Db) (server server' : Server)
    → Activates push
    → Done push unlocked now p org mailbox db server db' server'
    → (address : Text) × (resolve_mailbox now p org mailbox db ≡ ok address)
      × (server' address ≡ some (script_of mailbox db'))
unfolding create_rule update_rule delete_rule
Done-active push unlocked now p org mailbox db db' server server' activates
      (by_create id input row h) =
    let (address, done, found) =
      resolved-eq-ok (resolve_mailbox now p org mailbox db) _ db db' server server' row h in
    (
      address,
      found,
      finish-active push unlocked (new_row id org mailbox input db) row mailbox address
          (user_event org p.user_id "webmail.sieve.create" "mailbox" mailbox)
          (with_rule id org mailbox input db) db' server server' activates refl done,
    )
Done-active push unlocked now p org mailbox db db' server server' activates
      (by_update id input row h) =
    let (address, done, found) =
      resolved-eq-ok (resolve_mailbox now p org mailbox db) _ db db' server server' row h in
    (
      address,
      found,
      updated-active push unlocked p org mailbox address (rewrite mailbox id input db) db' server
          server' (first? (filter_at mailbox id) (rewrite mailbox id input db).filters) row
          activates done,
    )
Done-active push unlocked now p org mailbox db db' server server' activates (by_delete id h) =
    let (address, done, found) =
      resolved-eq-ok (resolve_mailbox now p org mailbox db) _ db db' server server' tt h in
    (
      address,
      found,
      deleted-active push unlocked p org mailbox id address db db' server server'
          (has (filter_at mailbox id) db.filters) activates done,
    )
