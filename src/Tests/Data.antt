-- ===== src/Tests/Data.antt =====
-- One organization with an owner, an admin and a plain member, and what belongs to it.
use justmail.Store.{
  OrgRow, user_active, Role, owner, admin, member, UserRow, MemberRow, KeyRow, MailboxRow, active,
  EndpointRow, HoldRow, PolicyRow, DomainRow, pending_verification, inherit, Db, Principal,
}
use justmail.Prelude.{ℕ, true, [], ◌∷◌, none, some, Text, codes, Result, ok, err}

-- The value of a request that succeeded.
abbrev pub value {ℓ} : {A : Type ℓ} → A → Result A → A
value d (ok a) = a
value d (err e) = d

abbrev pub seat : ℕ → ℕ → Role → MemberRow
seat org user role = record { org_id = org; user_id = user; role = role }

abbrev pub person : ℕ → Text → UserRow
person id email = record {
  id = id;
  email = email;
  name = email;
  password_hash = none;
  status = user_active;
}

abbrev pub actor : ℕ → Principal
actor id = record { user_id = id; mailbox_id = none; org_id = none }

abbrev pub box : ℕ → ℕ → Text → ℕ → MailboxRow
box id domain local_part quota = record {
  id = id;
  domain_id = domain;
  local_part = local_part;
  name = local_part;
  password_hash = [];
  quota_mb = quota;
  quota_used_bytes = 0;
  status = active;
  imap_enabled = true;
  pop3_enabled = true;
  smtp_enabled = true;
  sieve_enabled = true;
  autoresponder = none;
  forward_to = [];
  forward_keep_copy = true;
}

abbrev pub hook : EndpointRow
hook = record {
  id = 40;
  org_id = 1;
  url = codes "https://example.org/hook";
  events = "mailbox.created" ∷ [];
  secret_enc = codes "sealed";
  active = true;
  last_delivered_at = none;
  last_status = none;
  failure_count = 0;
}

abbrev pub api_key : KeyRow
api_key = record {
  id = 60;
  org_id = 1;
  name = codes "reader";
  key_prefix = codes "jm_reader0";
  key_hash = codes "jm_reader0key";
  scopes = "read" ∷ [];
  last_used_at = none;
  expires_at = none;
  created_by = some 1;
  created_at = 0;
  revoked_at = none;
}

abbrev pub office_domain : DomainRow
office_domain = record {
  id = 7;
  org_id = 1;
  name = codes "ex.org";
  status = pending_verification;
  verification_token = codes "t0ken";
  is_primary = true;
  catch_all_target = none;
  max_mailboxes = some 3;
  max_quota_mb = none;
  outbound_mode = inherit;
  bimi_logo_key = none;
}

abbrev pub hold : HoldRow
hold = record {
  id = 70;
  org_id = 1;
  mailbox_id = some 20;
  reason = codes "case";
  created_by = 1;
  created_at = 0;
  released_at = none;
  released_by = none;
}

abbrev pub policy : PolicyRow
policy = record {
  org_id = 1;
  enabled = true;
  delete_after_days = some 30;
  folders = codes "Trash" ∷ [];
  updated_by = some 1;
  updated_at = 0;
}

abbrev pub office_org : OrgRow
office_org = record {
  id = 1;
  name = codes "Office";
  slug = codes "office";
  plan = "free";
  storage_quota_mb = some 1000;
  created_at = 0;
}

abbrev pub office : Db
office = record {
  orgs = office_org ∷ [];
  users =
      person 1 (codes "a@ex.org")
      ∷ person 2 (codes "b@ex.org")
      ∷ person 3 (codes "c@ex.org")
      ∷ person 4 (codes "d@ex.org")
      ∷ [];
  members = seat 1 1 owner ∷ seat 1 2 admin ∷ seat 1 3 member ∷ [];
  keys = api_key ∷ [];
  domains = office_domain ∷ [];
  mailboxes = box 20 7 (codes "a") 300 ∷ box 21 7 (codes "b") 300 ∷ [];
  invites = [];
  endpoints = hook ∷ [];
  deliveries = [];
  audit = [];
  holds = hold ∷ [];
  policies = policy ∷ [];
  dns_records = [];
  aliases = [];
  groups = [];
  group_members = [];
  filters = [];
  scim_configs = [];
  scim_users = [];
  scim_groups = [];
  scim_members = [];
}
