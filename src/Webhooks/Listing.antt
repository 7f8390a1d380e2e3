-- ===== src/Webhooks/Listing.antt =====
-- `list` and `recentDeliveries` of apps/api/src/webhooks/webhooks.service.ts.
use justmail.Prelude.{
  ℕ, ◌≡◌, ◌≤◌, Bool, true, ◌&&◌, List, [], ◌∷◌, ◌==◌, Result, ok, ◌>>◌, take, min, All, arith,
  length, zero, suc, and-eq-true, ==_iff,
}
use justmail.Prelude.Table.{select, has, newest, select_lem, newest-All}
use justmail.Store.{admin, EndpointRow, DeliveryRow, Db}
use justmail.Orgs.{require_role}

-- `list`, the newest first.
abbrev pub list : ℕ → ℕ → ℕ → Db → Result (List EndpointRow)
list now org user db = do
  require_role now org user admin db
  ok (newest (select (λ (e : EndpointRow). e.org_id == org) db.endpoints))

-- The join with the endpoints, for one endpoint of the organization.
abbrev pub delivered_to : ℕ → ℕ → List EndpointRow → DeliveryRow → Bool
delivered_to org endpoint es d =
    d.endpoint_id == endpoint && has (λ e. e.id == d.endpoint_id && e.org_id == org) es

-- `recentDeliveries`
unfoldable pub recent_deliveries : ℕ → ℕ → ℕ → ℕ → ℕ → Db → Result (List DeliveryRow)
recent_deliveries now org user endpoint limit db = do
  require_role now org user admin db
  ok (take (min limit 200) (newest (select (delivered_to org endpoint db.endpoints) db.deliveries)))

take-All : (P : DeliveryRow → Type 0) (n : ℕ) (ds : List DeliveryRow) → All P ds → All P (take n ds)
take-All P zero ds h = tt
take-All P (suc n) [] h = tt
take-All P (suc n) (d ∷ ds) (p, h) = (p, take-All P n ds h)

length-take : (n : ℕ) (ds : List DeliveryRow) → length (take n ds) ≤ n
length-take zero ds = omega arith
length-take (suc n) [] = omega arith
length-take (suc n) (d ∷ ds) = omega (arith, length-take n ds)

recent :
    (now org user endpoint limit : ℕ) (db : Db) (ds : List DeliveryRow)
    → recent_deliveries now org user endpoint limit db ≡ ok ds
    → ds
      ≡ take
          (min limit 200)
          (newest (select (delivered_to org endpoint db.endpoints) db.deliveries))
unfolding recent_deliveries
recent now org user endpoint limit db ds h = ground arith

-- A delivery to the endpoint, which is one of the organization.
abbrev pub IsShown : ℕ → ℕ → List EndpointRow → DeliveryRow → Type 0
IsShown org endpoint es d =
    (d.endpoint_id ≡ endpoint) × (has (λ e. e.id == endpoint && e.org_id == org) es ≡ true)

delivered-IsShown :
    (org endpoint : ℕ) (es : List EndpointRow) (d : DeliveryRow)
    → delivered_to org endpoint es d ≡ true
    → IsShown org endpoint es d
delivered-IsShown org endpoint es d h =
    let (same, found) =
      and-eq-true (d.endpoint_id == endpoint)
        (has (λ e. e.id == d.endpoint_id && e.org_id == org) es) h in
    let eq = (==_iff d.endpoint_id endpoint).0 same in (eq, rw eq at found)

-- The deliveries that are shown are at most 200 and at most as many as asked for, and each is of the
-- endpoint that was asked for, which is one of the caller's organization.
pub recent_deliveries_lem :
    (now org user endpoint limit : ℕ) (db : Db) (ds : List DeliveryRow)
    → recent_deliveries now org user endpoint limit db ≡ ok ds
    → (length ds ≤ limit) × (length ds ≤ 200) × All (IsShown org endpoint db.endpoints) ds
recent_deliveries_lem now org user endpoint limit db ds h =
    let rows = newest (select (delivered_to org endpoint db.endpoints) db.deliveries) in
    rw (recent now org user endpoint limit db ds h) (
      ground (arith, length-take (min limit 200) rows),
      ground (arith, length-take (min limit 200) rows),
      take-All (IsShown org endpoint db.endpoints) (min limit 200) rows (
          newest-All (IsShown org endpoint db.endpoints)
            (select (delivered_to org endpoint db.endpoints) db.deliveries)
            (select_lem (IsShown org endpoint db.endpoints) (delivered_to org endpoint db.endpoints)
              db.deliveries (delivered-IsShown org endpoint db.endpoints))),
    )
