-- ===== src/Lib.antt =====
-- JustMail: the API of a multi-tenant mail server (apps/api/src), modelled as functions on its
-- tables.
--
-- A request is a function from the database to `Result`: an answer with the next database, or the
-- HTTP problem that the method throws. The services share one database and call each other as the
-- code does: an operation on an organization begins with a role check of `Orgs`; `Mailboxes` asks
-- `Orgs.Quota` before it allocates and emits to `Webhooks`; `Webhooks` asks `Ssrf` before it
-- registers an endpoint and again before each delivery; `Retention` reads the mailboxes and its
-- own holds; `Scim` maps the groups of a directory to
-- roles by `Ldap`; `Filters` compiles the filters of a mailbox by `Sieve`; `Domains` seeds DNS records
-- that `Domains.Bimi` describes; each change writes a row of the audit log.
--
--   Prelude    shared names: Boolean tests, lists, texts, tables, results
--   Store      the rows of the tables (apps/api/migrations), SessionPrincipal, AuditService.log
--   Audit      apps/api/src/audit/audit.service.ts: list
--   Orgs       apps/api/src/orgs/orgs.service.ts: requireRole, requireOrgAccess, roleFromScopes;
--              Orgs.Members: create, update, remove, addMember, updateMember, removeMember,
--              guardLastOwner; Orgs.Quota: getQuota, setQuota, assertQuota, computeQuota;
--              Orgs.Listing: listForUser, get, listMembers
--   Slug       slugify of the same file
--   Invites    apps/api/src/invites/invites.service.ts: create, accept, revoke, loadPending;
--              Invites.Listing: list, preview
--   Ssrf       apps/api/src/common/ssrf.ts
--   Webhooks   apps/api/src/webhooks/webhooks.service.ts: create, remove, emit; Webhooks.Delivery:
--              tick, nextRetry; Webhooks.Listing: list, recentDeliveries
--   Mailboxes  apps/api/src/mailboxes/mailboxes.service.ts: get, create, update, setPassword, remove,
--              assertDomain, enforceLimits; Mailboxes.Csv: csv; Mailboxes.Listing:
--              list, listOrg, exportCsv
--   Ldap       apps/api/src/ldap/mapping.ts
--   Retention  apps/api/src/retention/legal-hold.service.ts: list, create, release,
--              heldMailboxIds; retention.service.ts: getPolicy, updatePolicy; Retention.Pruning:
--              runDuePruning
--   Domains    apps/api/src/domains/domains.service.ts: list, get, create, update, remove, verify,
--              getDns; Domains.Seeds: seedDnsRecords, seedMailHostRecords; Domains.Bimi:
--              apps/api/src/domains/bimi.ts; Domains.Logos: getBimi, uploadBimi, removeBimi,
--              bimiLogoForHost
--   ApiKeys    apps/api/src/apikeys/apikeys.service.ts
--   Aliases    apps/api/src/aliases/aliases.service.ts
--   Groups     apps/api/src/groups/groups.service.ts
--   Sieve      apps/api/src/webmail/sieve-compile.ts; Sieve.Lexer: the tokens of RFC 5228
--   Filters    apps/api/src/webmail/sieve.service.ts
--   Scim       apps/api/src/scim/scim.service.ts: getConfig, updateConfig, generateToken, revokeToken,
--              authenticate; Scim.Users: listUsers, createUser; Scim.Changes: replaceUser,
--              patchUser, deleteUser; Scim.Groups: listGroups, createGroup, patchGroup,
--              replaceGroup, deleteGroup, recomputeRoles; Scim.Rows: addMembers, removeMembers,
--              setMembers; Scim.Wire: the pure helpers
--   Settings   apps/api/src/settings/settings.service.ts, on a table of its own
--   Throttle   apps/api/src/common/throttler.guard.ts
--   Reconcile  apps/api/src/dkim/dns-reconcile.ts
--   Tests      the theorems at concrete requests
--
-- A table is a list of rows in the order of insertion, and a SQL statement is `select`, `exclude`,
-- `modify`, `first?`, `has` or `count` on it, with the conditions of its WHERE clause; ON DELETE
-- CASCADE is written out where a row of a modelled table goes. A uuid is a number, and a fresh one
-- is an argument of the operation that inserts it, as are the clock, hashes of passwords and
-- tokens, and random tokens. Texts are lists of code units. Each request runs by itself:
-- concurrent transactions are not modelled.
--
-- Parameters for what the source only calls: the URL parser, `isIP` and the resolver (Ssrf),
-- `fetch` and the sealed secrets (Webhooks), the IMAP server (Retention), the collation of
-- the database (Mailboxes.Listing, Aliases, Groups, Settings), the JSON values (Settings),
-- the answers of Redis (Throttle), SHA-256 (Invites, ApiKeys, Scim), the comparison of
-- `citext` columns (Invites, Orgs, Scim), `String` and the test for a uuid (Scim), the
-- resolver, the UTF-8 decoder and base64 (Domains), the exchange with ManageSieve and the
-- mailbox's password (Filters), `toLowerCase` and `normalize` where the text may be other
-- than ASCII (Ldap, Reconcile, Slug); elsewhere letters are lowered in ASCII.
--
-- Recursion is structural except for the work list of `expandGroups`, which runs on fuel; `steps`
-- of Ldap.Expansion, the number of direct groups and of entries of the lists of parents, is
-- enough: a turn of the loop takes one name off the queue, and a group puts its parents there
-- once.
--
-- Not modelled: the foreign keys of the columns that name an actor, the conversion of rows to
-- JSON, the sessions that `accept` opens, webmail, SSO, calendar and contacts, the mail
-- server's configuration, and the front ends, which are glue around libraries or views of the same
-- tables.
pub mod Prelude
pub mod Store
pub mod Audit
pub mod Sieve
pub mod ApiKeys
pub mod Aliases
pub mod Groups
pub mod Domains
pub mod Filters
pub mod Scim
pub mod Settings
pub mod Slug
pub mod Orgs
pub mod Invites
pub mod Ssrf
pub mod Webhooks
pub mod Mailboxes
pub mod Ldap
pub mod Retention
pub mod Throttle
pub mod Reconcile
pub mod Tests
