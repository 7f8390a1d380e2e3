-- ===== src/Tests/Webhooks.antt =====
-- An event, and rounds of deliveries with one endpoint.
use justmail.Store.{Db, DeliveryRow, Payload, mailbox_created}
use justmail.Prelude.{◌∷◌, ℕ, ◌+◌, [], some, none, Option, Text, codes, All}
use justmail.Ssrf.{SsrfError}
use justmail.Webhooks.{emit, new_delivery}
use justmail.Webhooks.Delivery.{Fetched, responded, Sent, Due, tick}
use justmail.Webhooks.Delivery.Schedule.{IsTried, here, emits, ticks, left_by, Reach-IsTried}
use justmail.Tests.Data.{hook, office}

abbrev fresh : ℕ → ℕ
fresh i = 100 + i

abbrev event : Payload
event = mailbox_created 20 (codes "a@ex.org") 300

abbrev opens : Text → Option Text
opens sealed = some (codes "key")

abbrev public : Text → Option SsrfError
public url = none

abbrev answers : Text → Text → DeliveryRow → Fetched
answers key url d = responded 503

abbrev clock : ℕ → ℕ
clock id = 30

abbrev print : ℕ → Text
print n = []

Reach-IsTried_example :
    All IsTried
      (left_by (
        tick opens public answers clock print 20
          (emit fresh 9 1 "mailbox.created" event office))).deliveries
Reach-IsTried_example =
    Reach-IsTried {db = office}
      {db' = left_by
        (tick opens public answers clock print 20 (emit fresh 9 1 "mailbox.created" event office))}
      (ticks opens public answers clock print 20 (emits fresh 9 1 "mailbox.created" event here)) tt

abbrev head : Due
head = record { delivery = new_delivery 9 40 "mailbox.created" event 100; endpoint = hook }

abbrev unavailable : Sent
unavailable = record { status = some 503; error = none }

abbrev queued : Db
queued = record office { deliveries = new_delivery 9 40 "mailbox.created" event 100 ∷ [] }
