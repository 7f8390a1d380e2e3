-- ===== src/Tests.antt =====
-- The theorems at concrete requests, over one small database.
mod Data
mod Orgs
mod Invites
mod Ssrf
mod Webhooks
mod Mailboxes
mod Ldap
mod Retention
mod Throttle
mod Reconcile
mod Sieve
mod ApiKeys
mod Aliases
mod Groups
mod Domains
mod Scim
mod Settings
