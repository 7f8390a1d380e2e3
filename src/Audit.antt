-- ===== src/Audit.antt =====
-- `list` of apps/api/src/audit/audit.service.ts; `log` stands in `Store`.
use justmail.Prelude.{ℕ, List, ◌==◌, Result, ok, ◌>>◌, take}
use justmail.Prelude.Table.{select, newest}
use justmail.Store.{viewer, AuditEntry, Db}
use justmail.Orgs.{require_role}

-- `list`, the newest first.
abbrev pub list : ℕ → ℕ → ℕ → ℕ → Db → Result (List AuditEntry)
list now org user limit db = do
  require_role now org user viewer db
  ok (take limit (newest (select (λ (e : AuditEntry). e.org_id == org) db.audit)))
