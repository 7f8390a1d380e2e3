-- ===== src/Webhooks.antt =====
-- apps/api/src/webhooks/webhooks.service.ts: the endpoints of an organization, and the queue of
-- deliveries that `emit` fills. `assert_public` is `assertPublicHttpUrl` of `Ssrf`.
pub mod Queue
pub mod Listing
pub mod Delivery
use justmail.Prelude.{
  ℕ, suc, Bool, true, false, not, ◌&&◌, List, [], ◌∷◌, ◌++◌, Option, none, some, String, Text, ◌==◌,
  if◌then◌else◌, Result, ok, err, bad_request, not_found, ◌>>=◌, ◌>>◌, throw_if,
}
use justmail.Prelude.Table.{select, exclude, has}
use justmail.Store.{admin, Payload, EndpointRow, DeliveryRow, Db, Principal}
use justmail.Orgs.{require_role, includes}
use justmail.Orgs.Members.{user_event}
use justmail.Ssrf.{
  SsrfError, invalid_url, only_http, host_not_public, host_does_not_resolve, resolves_to_non_public,
}

-- The messages of `SsrfError`.
abbrev pub message : SsrfError → String
message invalid_url = "Invalid URL"
message only_http = "Only http(s) webhook URLs are allowed"
message host_not_public = "Webhook host is not a public address"
message host_does_not_resolve = "Webhook host does not resolve"
message resolves_to_non_public = "Webhook host resolves to a non-public address"

abbrev public_or_throw : Option SsrfError → Result (Unit {0})
public_or_throw none = ok tt
public_or_throw (some e) = err (bad_request (message e))

abbrev pub new_endpoint : ℕ → ℕ → Text → List String → Text → EndpointRow
new_endpoint id org url events secret_enc = record {
  id = id;
  org_id = org;
  url = url;
  events = events;
  secret_enc = secret_enc;
  active = true;
  last_delivered_at = none;
  last_status = none;
  failure_count = 0;
}

-- `create`: `secret_enc` is the sealed random secret.
unfoldable pub create :
    (Text → Option SsrfError) → ℕ → ℕ → Text → Principal → ℕ → Text → List String → Db → Result Db
create assert_public now id secret_enc p org url events db = do
  require_role now org p.user_id admin db
  public_or_throw (assert_public url)
  ok (
      user_event org p.user_id "webhook.create" "webhook" id
        (record db { endpoints = db.endpoints ++ new_endpoint id org url events secret_enc ∷ [] }))

abbrev pub endpoint_at : ℕ → ℕ → EndpointRow → Bool
endpoint_at org id e = e.id == id && e.org_id == org

-- `remove`; the deliveries go with their endpoint, whose `id` is a key.
unfoldable pub remove : ℕ → Principal → ℕ → ℕ → Db → Result Db
remove now p org id db = do
  require_role now org p.user_id admin db
  throw_if (not (has (endpoint_at org id) db.endpoints)) (not_found "Webhook not found")
  ok (
      user_event org p.user_id "webhook.delete" "webhook" id (record db {
        endpoints = exclude (endpoint_at org id) db.endpoints;
        deliveries = exclude (λ d. d.endpoint_id == id) db.deliveries;
      }))

-- `org_id = $1 AND active AND $2 = ANY(events)`
abbrev pub subscribed : ℕ → String → EndpointRow → Bool
subscribed org event e = e.org_id == org && e.active && includes event e.events

abbrev pub new_delivery : ℕ → ℕ → String → Payload → ℕ → DeliveryRow
new_delivery now endpoint event payload id = record {
  id = id;
  endpoint_id = endpoint;
  event = event;
  payload = payload;
  status = none;
  attempts = 0;
  next_attempt_at = some now;
  delivered_at = none;
  last_error = none;
}

-- One row for each endpoint; `fresh` yields the uuids that the table generates.
enqueue : (ℕ → ℕ) → ℕ → ℕ → String → Payload → List EndpointRow → List DeliveryRow
enqueue fresh i now event payload [] = []
enqueue fresh i now event payload (e ∷ es) =
    new_delivery now e.id event payload (fresh i) ∷ enqueue fresh (suc i) now event payload es

-- `emit`, where the database answers.
unfoldable pub emit : (ℕ → ℕ) → ℕ → ℕ → String → Payload → Db → Db
unfolding enqueue
emit fresh now org event payload db = record db {
  deliveries =
      db.deliveries
      ++ enqueue fresh 0 now event payload (select (subscribed org event) db.endpoints);
}
