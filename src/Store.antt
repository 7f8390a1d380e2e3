-- ===== src/Store.antt =====
-- The tables of apps/api/migrations/0001_init.sql, 0002_m2.sql, 0007_sieve_rules.sql,
-- 0011_scim.sql, 0012_org_quota.sql, 0013_retention.sql, 0016_mail_groups.sql and 0022_bimi.sql that the services below read and write, as lists of rows. A uuid is its number,
-- a time is in milliseconds.
use justmail.Prelude.{ℕ, ◌==◌, ◌++◌, ◌∷◌, [], List, Option, String, Text, Bool, ◌&&◌, true, false}
use justmail.Sieve.{Rule}

-- `OrgRole`
pub data Role : Type 0 where
  owner admin member viewer : Role

pub record OrgRow : Type 0 where
  pub id : ℕ
  pub name : Text
  pub slug : Text
  pub plan : String
  pub storage_quota_mb : Option ℕ
  pub created_at : ℕ

-- `status` of `users`.
pub data UserStatus : Type 0 where
  user_active user_suspended user_invited : UserStatus

pub record UserRow : Type 0 where
  pub id : ℕ
  pub email : Text
  pub name : Text
  pub password_hash : Option Text
  pub status : UserStatus

pub record MemberRow : Type 0 where
  pub org_id : ℕ
  pub user_id : ℕ
  pub role : Role

pub record KeyRow : Type 0 where
  pub id : ℕ
  pub org_id : ℕ
  pub name : Text
  pub key_prefix : Text
  pub key_hash : Text
  pub scopes : List String
  pub last_used_at : Option ℕ
  pub expires_at : Option ℕ
  pub created_by : Option ℕ
  pub created_at : ℕ
  pub revoked_at : Option ℕ

-- `DomainStatus`
pub data DomainStatus : Type 0 where
  pending_verification verifying active_domain suspended_domain : DomainStatus

-- `OutboundMode`
pub data OutboundMode : Type 0 where
  inherit direct smarthost : OutboundMode

pub record DomainRow : Type 0 where
  pub id : ℕ
  pub org_id : ℕ
  pub name : Text
  pub status : DomainStatus
  pub verification_token : Text
  pub is_primary : Bool
  pub catch_all_target : Option Text
  pub max_mailboxes : Option ℕ
  pub max_quota_mb : Option ℕ
  pub outbound_mode : OutboundMode
  pub bimi_logo_key : Option Text

-- `purpose` of `dns_records`, and `check_status`.
pub data Purpose : Type 0 where
  for_verification for_mx for_spf for_dkim for_dmarc for_mta_sts for_tls_rpt : Purpose
  for_autoconfig for_autodiscover for_bimi for_caa for_custom : Purpose

pub data CheckStatus : Type 0 where
  unknown checked_ok drifted missing : CheckStatus

pub record DnsRow : Type 0 where
  pub domain_id : ℕ
  pub purpose : Purpose
  pub kind : Text
  pub name : Text
  pub content : Text
  pub ttl : ℕ
  pub priority : Option ℕ
  pub observed_content : Option Text
  pub check_status : CheckStatus
  pub last_checked_at : Option ℕ

pub record AliasRow : Type 0 where
  pub id : ℕ
  pub domain_id : ℕ
  pub source : Text
  pub destinations : List Text
  pub enabled : Bool

pub record GroupRow : Type 0 where
  pub id : ℕ
  pub domain_id : ℕ
  pub local_part : Text
  pub name : Text
  pub description : Option Text
  pub enabled : Bool
  pub allow_member_send : Bool

pub record GroupMemberRow : Type 0 where
  pub group_id : ℕ
  pub address : Text

-- `MailboxStatus`
pub data Status : Type 0 where
  active suspended disabled : Status

-- `autoresponder` is a JSON document that the services pass through.
pub record MailboxRow : Type 0 where
  pub id : ℕ
  pub domain_id : ℕ
  pub local_part : Text
  pub name : Text
  pub password_hash : Text
  pub quota_mb : ℕ
  pub quota_used_bytes : ℕ
  pub status : Status
  pub imap_enabled : Bool
  pub pop3_enabled : Bool
  pub smtp_enabled : Bool
  pub sieve_enabled : Bool
  pub autoresponder : Option Text
  pub forward_to : List Text
  pub forward_keep_copy : Bool

pub record InviteRow : Type 0 where
  pub id : ℕ
  pub org_id : ℕ
  pub email : Text
  pub role : Role
  pub token_hash : Text
  pub invited_by : ℕ
  pub expires_at : ℕ
  pub accepted_at : Option ℕ

-- What `AuditService.log` inserts, less `ip` and `meta`; an entry without an actor is the system's.
pub record AuditEntry : Type 0 where
  pub org_id : ℕ
  pub actor_id : Option ℕ
  pub action : String
  pub target_type : String
  pub target_id : Option ℕ

-- What the services hand to `WebhooksService.emit`.
pub data Payload : Type 0 where
  mailbox_created : ℕ → Text → ℕ → Payload
  mailbox_deleted : ℕ → Text → Payload
  domain_verified : ℕ → Text → Payload

pub record EndpointRow : Type 0 where
  pub id : ℕ
  pub org_id : ℕ
  pub url : Text
  pub events : List String
  pub secret_enc : Text
  pub active : Bool
  pub last_delivered_at : Option ℕ
  pub last_status : Option ℕ
  pub failure_count : ℕ

pub record DeliveryRow : Type 0 where
  pub id : ℕ
  pub endpoint_id : ℕ
  pub event : String
  pub payload : Payload
  pub status : Option ℕ
  pub attempts : ℕ
  pub next_attempt_at : Option ℕ
  pub delivered_at : Option ℕ
  pub last_error : Option Text

-- A hold of one mailbox, or of the whole organization where `mailbox_id` is null.
pub record HoldRow : Type 0 where
  pub id : ℕ
  pub org_id : ℕ
  pub mailbox_id : Option ℕ
  pub reason : Text
  pub created_by : ℕ
  pub created_at : ℕ
  pub released_at : Option ℕ
  pub released_by : Option ℕ

pub record PolicyRow : Type 0 where
  pub org_id : ℕ
  pub enabled : Bool
  pub delete_after_days : Option ℕ
  pub folders : List Text
  pub updated_by : Option ℕ
  pub updated_at : ℕ

-- `SieveRuleRow`, its `name`, `match`, `conditions` and `actions` as one rule.
pub record FilterRow : Type 0 where
  pub id : ℕ
  pub org_id : ℕ
  pub mailbox_id : ℕ
  pub priority : ℕ
  pub enabled : Bool
  pub rule : Rule
  pub script_source : Text

-- `ConfigRow` of the SCIM service.
pub record ScimConfigRow : Type 0 where
  pub org_id : ℕ
  pub enabled : Bool
  pub token_hash : Option Text
  pub token_prefix : Option Text
  pub default_role : Role
  pub group_role_map : List (Text × Role)
  pub deactivate : Bool
  pub last_request_at : Option ℕ

-- Its `UserRow`: `raw` is what `rawOf` keeps of the name.
pub record ScimUserRow : Type 0 where
  pub id : ℕ
  pub org_id : ℕ
  pub user_id : ℕ
  pub external_id : Option Text
  pub user_name : Text
  pub active : Bool
  pub raw : Text

-- Its `GroupRow`.
pub record ScimGroupRow : Type 0 where
  pub id : ℕ
  pub org_id : ℕ
  pub external_id : Option Text
  pub display_name : Text

pub record ScimMemberRow : Type 0 where
  pub group_id : ℕ
  pub scim_user_id : ℕ

pub record Db : Type 0 where
  pub orgs : List OrgRow
  pub users : List UserRow
  pub members : List MemberRow
  pub keys : List KeyRow
  pub domains : List DomainRow
  pub mailboxes : List MailboxRow
  pub invites : List InviteRow
  pub endpoints : List EndpointRow
  pub deliveries : List DeliveryRow
  pub audit : List AuditEntry
  pub holds : List HoldRow
  pub policies : List PolicyRow
  pub dns_records : List DnsRow
  pub aliases : List AliasRow
  pub groups : List GroupRow
  pub group_members : List GroupMemberRow
  pub filters : List FilterRow
  pub scim_configs : List ScimConfigRow
  pub scim_users : List ScimUserRow
  pub scim_groups : List ScimGroupRow
  pub scim_members : List ScimMemberRow

-- `SessionPrincipal`, with the fields that authorisation reads.
pub record Principal : Type 0 where
  pub user_id : ℕ
  pub mailbox_id : Option ℕ
  pub org_id : Option ℕ

-- `AuditService.log`: one row at the end of the table.
abbrev pub log : AuditEntry → Db → Db
log e db = record db { audit = db.audit ++ e ∷ [] }

-- The row of a user in an organization, by the primary key of `org_members`.
abbrev pub member_at : ℕ → ℕ → MemberRow → Bool
member_at org user m = m.org_id == org && m.user_id == user

abbrev pub is_owner : Role → Bool
is_owner owner = true
is_owner _ = false

-- `WHERE org_id = $1 AND role = 'owner'`
abbrev pub owner_of : ℕ → MemberRow → Bool
owner_of org m = m.org_id == org && is_owner m.role
