-- ===== src/Webhooks/Delivery/Schedule.antt =====
-- How often a delivery of apps/api/src/webhooks/webhooks.service.ts is tried, and when.
use justmail.Prelude.{
  ℕ, zero, suc, ◌+◌, ◌*◌, ◌≤◌, ◌<◌, ◌≡◌, false, List, [], ◌∷◌, Option, none, some, arith, Text,
  ◌==◌, inl, inr, Option-cases, All, take, String, All-append,
}
use justmail.Prelude.Table.{select, All-modify}
use justmail.Store.{EndpointRow, DeliveryRow, Db, Payload}
use justmail.Ssrf.{SsrfError}
use justmail.Webhooks.{emit, enqueue}
use justmail.Webhooks.Delivery.{
  next_retry, Fetched, Sent, success, settle, Due, is_due, due_rows, join_endpoints, insert_due,
  sort_due, Round, finished, aborted, write, attempt, deliver, tick,
}

-- A delivery was tried at most six times, and fewer if it waits for another attempt.
abbrev pub IsTried : DeliveryRow → Type 0
IsTried d = (d.attempts ≤ 6) × ((t : ℕ) → d.next_attempt_at ≡ some t → d.attempts < 6)

settle-IsTried :
    (print : ℕ → Text) (now attempts : ℕ) (s : Sent) (d : DeliveryRow)
    → attempts ≤ 6
    → IsTried (settle print now attempts s d)
settle-IsTried print now attempts s d h = (ground arith, λ t e. ground arith)

-- Of a row that is due, the next attempt is at most the sixth.
abbrev IsReady : Due → Type 0
IsReady r = r.delivery.attempts < 6

select-IsReady :
    (now : ℕ) (es : List EndpointRow) (ds : List DeliveryRow)
    → All IsTried ds
    → All IsReady (join_endpoints es (select (is_due now) ds))
unfolding join_endpoints
select-IsReady now es [] h = tt
select-IsReady now es (d ∷ ds) (p, h) = elim (Option-cases d.next_attempt_at) [
  | inl idle ↦ ground (arith, select-IsReady now es ds h)
  | inr (t, e) ↦ ground (arith, select-IsReady now es ds h, p.1 t e)
]

insert_due-All :
    (P : Due → Type 0) (r : Due) (rs : List Due) → P r → All P rs → All P (insert_due r rs)
unfolding insert_due
insert_due-All P r [] p h = (p, tt)
insert_due-All P r (x ∷ rs) p (q, h) = ground (arith, insert_due-All P r rs p h)

sort_due-All : (P : Due → Type 0) (rs : List Due) → All P rs → All P (sort_due rs)
unfolding sort_due
sort_due-All P [] h = tt
sort_due-All P (r ∷ rs) (p, h) = insert_due-All P r (sort_due rs) p (sort_due-All P rs h)

take-All : (P : Due → Type 0) (n : ℕ) (rs : List Due) → All P rs → All P (take n rs)
take-All P zero rs h = tt
take-All P (suc n) [] h = tt
take-All P (suc n) (r ∷ rs) (p, h) = (p, take-All P n rs h)

due_rows-IsReady : (now : ℕ) (db : Db) → All IsTried db.deliveries → All IsReady (due_rows now db)
unfolding due_rows
due_rows-IsReady now db h =
    take-All IsReady 50 _ (sort_due-All IsReady _ (select-IsReady now db.endpoints db.deliveries h))

-- The database that a round leaves behind.
abbrev pub left_by : Round → Db
left_by (finished good bad db) = db
left_by (aborted db) = db

module _ (secret : Text → Option Text) (assert_public : Text → Option SsrfError)
    (fetch : Text → Text → DeliveryRow → Fetched) (clock : ℕ → ℕ) (print : ℕ → Text) where
  deliver-IsTried :
      (rs : List Due) (good bad : ℕ) (db : Db)
      → All IsReady rs
      → All IsTried db.deliveries
      → All IsTried
          (left_by (deliver secret assert_public fetch clock print rs good bad db)).deliveries
  unfolding deliver
  deliver-IsTried [] good bad db hr h = h
  deliver-IsTried (r ∷ rs) good bad db (pr, hr) h =
      elim (Option-cases (secret r.endpoint.secret_enc)) [
        | inl shut ↦ rw (shut, deliver) h
        | inr (key, opened) ↦
            let now = clock r.delivery.id in
            let s = attempt secret assert_public fetch clock print key r in
            rw (opened, deliver)
              (deliver-IsTried rs _ _ (write secret assert_public fetch clock print r s db) hr (
                All-modify (λ d. d.id == r.delivery.id)
                  (settle print now (r.delivery.attempts + 1) s) db.deliveries
                  (λ d _. settle-IsTried print now (r.delivery.attempts + 1) s d (omega arith)) h))
      ]

  tick-IsTried :
      (now : ℕ) (db : Db)
      → All IsTried db.deliveries
      → All IsTried (left_by (tick secret assert_public fetch clock print now db)).deliveries
  unfolding tick
  tick-IsTried now db h = deliver-IsTried (due_rows now db) 0 0 db (due_rows-IsReady now db h) h

enqueue-IsTried :
    (fresh : ℕ → ℕ) (i now : ℕ) (event : String) (payload : Payload) (es : List EndpointRow)
    → All IsTried (enqueue fresh i now event payload es)
unfolding enqueue
enqueue-IsTried fresh i now event payload [] = tt
enqueue-IsTried fresh i now event payload (e ∷ es) =
    ((omega arith, λ t p. omega arith), enqueue-IsTried fresh (suc i) now event payload es)

-- The queue under any sequence of events and rounds, whatever the network, the clock, the resolver
-- and the sealed secrets do in each round.
pub data Reach (db : Db) : Db → Type 0 where
  here : Reach db db
  emits :
      {mid : Db} (fresh : ℕ → ℕ) (now org : ℕ) (event : String) (payload : Payload)
      → Reach db mid
      → Reach db (emit fresh now org event payload mid)
  ticks :
      {mid : Db} (secret : Text → Option Text) (assert_public : Text → Option SsrfError)
      (fetch : Text → Text → DeliveryRow → Fetched) (clock : ℕ → ℕ) (print : ℕ → Text) (now : ℕ)
      → Reach db mid
      → Reach db (left_by (tick secret assert_public fetch clock print now mid))

-- After any sequence of emitted events and delivery rounds from a queue where this holds (the empty
-- one, for example), no delivery was tried more than six times, and one that still waits for an
-- attempt was tried fewer than six times.
pub Reach-IsTried :
    {db db' : Db} → Reach db db' → All IsTried db.deliveries → All IsTried db'.deliveries
unfolding emit
Reach-IsTried here h = h
Reach-IsTried (emits {mid} fresh now org event payload r) h =
    All-append IsTried mid.deliveries _ (Reach-IsTried r h)
      (enqueue-IsTried fresh 0 now event payload _)
Reach-IsTried (ticks {mid} secret assert_public fetch clock print now r) h =
    tick-IsTried secret assert_public fetch clock print now mid (Reach-IsTried r h)

-- After a failed attempt, number 1 to 5, the delivery is due again 60, 300, 1800, 7200 or 21600
-- seconds later; after the sixth and any later one it is not due again.
pub settle_schedule :
    (print : ℕ → Text) (now : ℕ) (s : Sent) (d : DeliveryRow)
    → success s.status ≡ false
    → ((settle print now 1 s d).next_attempt_at ≡ some (now + 60 * 1000))
      × ((settle print now 2 s d).next_attempt_at ≡ some (now + 300 * 1000))
      × ((settle print now 3 s d).next_attempt_at ≡ some (now + 1800 * 1000))
      × ((settle print now 4 s d).next_attempt_at ≡ some (now + 7200 * 1000))
      × ((settle print now 5 s d).next_attempt_at ≡ some (now + 21600 * 1000))
      × ((n : ℕ) → 6 ≤ n → (settle print now n s d).next_attempt_at ≡ none)
unfolding next_retry
settle_schedule print now s d h =
    (ground arith, ground arith, ground arith, ground arith, ground arith, λ n le. ground arith)
