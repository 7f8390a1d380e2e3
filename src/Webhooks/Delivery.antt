-- ===== src/Webhooks/Delivery.antt =====
-- `tick` of apps/api/src/webhooks/webhooks.service.ts: one round over the deliveries that are due.
-- The sealed secrets, the network and the clock are parameters.
pub mod Schedule
use justmail.Prelude.{
  ℕ, suc, ◌+◌, ◌*◌, ◌<◌, min, Bool, true, false, not, ◌&&◌, ◌||◌, List, [], ◌∷◌, ◌++◌, Option, none,
  some, String, Text, codes, leb, ltb, ◌==◌, if◌then◌else◌, take, get_or,
}
use justmail.Prelude.Table.{select, modify, first?}
use justmail.Store.{EndpointRow, DeliveryRow, Db}
use justmail.Orgs.{is_none}
use justmail.Ssrf.{SsrfError}
use justmail.Webhooks.{message}

abbrev pub max_attempts : ℕ
max_attempts = 6

-- `BACKOFF`, in seconds.
abbrev pub backoff : List ℕ
backoff = 10 ∷ 60 ∷ 300 ∷ 1800 ∷ 7200 ∷ 21600 ∷ []

-- `nextRetry`; the index never passes the end of the list.
unfoldable pub next_retry : ℕ → ℕ → ℕ
next_retry now attempts = now + get_or backoff (min attempts 5) 3600 * 1000

-- What `fetch` does: an answer with its status, or an exception with its message.
pub data Fetched : Type 0 where
  responded : ℕ → Fetched
  failed : Text → Fetched

-- `status` and `errMsg` after the `try`.
pub record Sent : Type 0 where
  pub status : Option ℕ
  pub error : Option Text

abbrev sent : Option SsrfError → Fetched → Sent
sent (some e) f = record { status = none; error = some (take 500 (codes (message e))) }
sent none (responded s) = record { status = some s; error = none }
sent none (failed m) = record { status = none; error = some (take 500 m) }

-- `status !== null && status >= 200 && status < 300`
abbrev pub success : Option ℕ → Bool
success none = false
success (some s) = leb 200 s && ltb s 300

-- `` `HTTP ${status}` ``, reached only with a status.
abbrev http_error : (ℕ → Text) → Option ℕ → Text
http_error print none = codes "HTTP null"
http_error print (some s) = codes "HTTP " ++ print s

abbrev error_text : (ℕ → Text) → Sent → Text
error_text print s = elim s.error [ some m ↦ m | none ↦ http_error print s.status ]

abbrev pub delivered : ℕ → ℕ → Sent → DeliveryRow → DeliveryRow
delivered now attempts s d = record d {
  status = s.status;
  attempts = attempts;
  delivered_at = some now;
  next_attempt_at = none;
  last_error = none;
}

abbrev pub retried : (ℕ → Text) → ℕ → ℕ → Sent → DeliveryRow → DeliveryRow
retried print now attempts s d = record d {
  status = s.status;
  attempts = attempts;
  next_attempt_at = if leb max_attempts attempts then none else some (next_retry now attempts);
  last_error = some (error_text print s);
}

abbrev pub settle : (ℕ → Text) → ℕ → ℕ → Sent → DeliveryRow → DeliveryRow
settle print now attempts s d =
    if success s.status then delivered now attempts s d else retried print now attempts s d

-- The endpoint's own columns.
abbrev pub settle_endpoint : ℕ → Sent → EndpointRow → EndpointRow
settle_endpoint now s e =
    if success s.status
    then record e { last_delivered_at = some now; last_status = s.status; failure_count = 0 }
    else record e { last_status = s.status; failure_count = e.failure_count + 1 }

-- A due delivery with its endpoint.
pub record Due : Type 0 where
  pub delivery : DeliveryRow
  pub endpoint : EndpointRow

abbrev before : ℕ → Option ℕ → Bool
before now none = false
before now (some t) = leb t now

-- `delivered_at IS NULL AND next_attempt_at IS NOT NULL AND next_attempt_at <= now()`
abbrev pub is_due : ℕ → DeliveryRow → Bool
is_due now d = is_none d.delivered_at && before now d.next_attempt_at

abbrev due_at : Due → ℕ
due_at r = elim r.delivery.next_attempt_at [ none ↦ 0 | some t ↦ t ]

-- The join with the endpoints.
join_endpoints : List EndpointRow → List DeliveryRow → List Due
join_endpoints es [] = []
join_endpoints es (d ∷ ds) =
    let rest = join_endpoints es ds in
    elim (first? (λ e. e.id == d.endpoint_id) es) [
      | none ↦ rest
      | some e ↦ record { delivery = d; endpoint = e } ∷ rest
    ]

-- `ORDER BY d.next_attempt_at`
insert_due : Due → List Due → List Due
insert_due r [] = r ∷ []
insert_due r (x ∷ xs) = if leb (due_at r) (due_at x) then r ∷ x ∷ xs else x ∷ insert_due r xs

sort_due : List Due → List Due
sort_due [] = []
sort_due (r ∷ rs) = insert_due r (sort_due rs)

unfoldable pub due_rows : ℕ → Db → List Due
unfolding join_endpoints insert_due sort_due
due_rows now db =
    take 50 (sort_due (join_endpoints db.endpoints (select (is_due now) db.deliveries)))

-- How a round ends: with its two counts, or by the exception of a secret that cannot be opened.
pub data Round : Type 0 where
  finished : ℕ → ℕ → Db → Round
  aborted : Db → Round

-- `secret` opens a sealed secret, `fetch` is the request with its signed body, `clock` the time at
-- which a delivery is written, and `print` the decimal of a status.
module _ (secret : Text → Option Text) (assert_public : Text → Option SsrfError)
    (fetch : Text → Text → DeliveryRow → Fetched) (clock : ℕ → ℕ) (print : ℕ → Text) where
  abbrev pub write : Due → Sent → Db → Db
  write r s db =
      let now = clock r.delivery.id in
      record db {
        deliveries =
            modify (λ d. d.id == r.delivery.id) (settle print now (r.delivery.attempts + 1) s)
              db.deliveries;
        endpoints = modify (λ e. e.id == r.endpoint.id) (settle_endpoint now s) db.endpoints;
      }

  abbrev pub attempt : Text → Due → Sent
  attempt key r = sent (assert_public r.endpoint.url) (fetch key r.endpoint.url r.delivery)

  -- The loop over the rows.
  unfoldable pub deliver : List Due → ℕ → ℕ → Db → Round
  deliver [] good bad db = finished good bad db
  deliver (r ∷ rs) good bad db = elim (secret r.endpoint.secret_enc) [
    | none ↦ aborted db
    | some key ↦
        let s = attempt key r in
        deliver rs (if success s.status then good + 1 else good)
          (if success s.status then bad else bad + 1) (write r s db)
  ]

  unfoldable pub tick : ℕ → Db → Round
  unfolding deliver
  tick now db = deliver (due_rows now db) 0 0 db
