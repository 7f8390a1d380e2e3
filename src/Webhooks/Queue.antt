-- ===== src/Webhooks/Queue.antt =====
-- Which deliveries `emit` of apps/api/src/webhooks/webhooks.service.ts adds.
use justmail.Prelude.{ℕ, suc, ◌≡◌, true, List, [], ◌∷◌, ◌++◌, none, arith, String, refl, All, map}
use justmail.Prelude.Table.{select}
use justmail.Store.{EndpointRow, DeliveryRow, Db, Payload}
use justmail.Webhooks.{emit, enqueue, subscribed}
use justmail.Webhooks.Delivery.{is_due}

-- A delivery of the event that no attempt was made of and that is due.
abbrev pub IsNew : ℕ → String → Payload → DeliveryRow → Type 0
IsNew now event payload d =
    (d.event ≡ event)
    × (d.payload ≡ payload)
    × (d.attempts ≡ 0)
    × (d.status ≡ none)
    × (is_due now d ≡ true)

enqueue-IsNew :
    (fresh : ℕ → ℕ) (i now : ℕ) (event : String) (payload : Payload) (es : List EndpointRow)
    → All (IsNew now event payload) (enqueue fresh i now event payload es)
unfolding enqueue
enqueue-IsNew fresh i now event payload [] = tt
enqueue-IsNew fresh i now event payload (e ∷ es) =
    ((refl, refl, refl, refl, ground arith), enqueue-IsNew fresh (suc i) now event payload es)

map-enqueue :
    (fresh : ℕ → ℕ) (i now : ℕ) (event : String) (payload : Payload) (es : List EndpointRow)
    → map (λ (d : DeliveryRow). d.endpoint_id) (enqueue fresh i now event payload es)
      ≡ map (λ (e : EndpointRow). e.id) es
unfolding enqueue
map-enqueue fresh i now event payload [] = refl
map-enqueue fresh i now event payload (e ∷ es) = cc (map-enqueue fresh (suc i) now event payload es)

-- An event adds, behind the queue, one delivery for each active endpoint of the organization that
-- subscribes to it, in their order, and none for any other; each is due at once and untried.
pub emit_lem :
    (fresh : ℕ → ℕ) (now org : ℕ) (event : String) (payload : Payload) (db : Db)
    → (new : List DeliveryRow) × ((emit fresh now org event payload db).deliveries
        ≡ db.deliveries ++ new)
      × (map (λ (d : DeliveryRow). d.endpoint_id) new
          ≡ map (λ (e : EndpointRow). e.id) (select (subscribed org event) db.endpoints))
      × All (IsNew now event payload) new
unfolding emit
emit_lem fresh now org event payload db =
    let es = select (subscribed org event) db.endpoints in
    (
      enqueue fresh 0 now event payload es,
      refl,
      map-enqueue fresh 0 now event payload es,
      enqueue-IsNew fresh 0 now event payload es,
    )
