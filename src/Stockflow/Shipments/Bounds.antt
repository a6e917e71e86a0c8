-- ===== src/Stockflow/Shipments/Bounds.antt =====
-- stockflow.py: the quantities that shipments send are within their limits, and no shipment id is
-- used twice.
use baen_economy_engine.Prelude.{
  ℕ, ◌≡◌, sym, ap, ◌∙◌, false, [], ◌∷◌, ◌++◌, ok, Bool-cases, inl, inr, >>=-eq-ok, ok-inj,
}
use baen_economy_engine.Prelude.Dict.{string_eq, pair_eq}
use baen_economy_engine.Decimal.Number.{Decimal, zero_dec, is_zero, lt_dec, min_dec, max_dec}
use baen_economy_engine.Decimal.Context.{sub}
use baen_economy_engine.Decimal.Order.{
  Le, le_trans, max-le, min-le_left, min-le_right, le-max_left, le-max_right, not_lt-le,
}
use baen_economy_engine.Stockflow.Types.{calc, Route, ShipmentOrder, ShipmentResult, lot_post_init}
use baen_economy_engine.Stockflow.Books.{
  Books, StockKey, amount, credit, debit, free_stock, debit_stock,
}
use baen_economy_engine.Stockflow.Shipments.{dispatched_of, send_lot, dispatch_on}

-- A quantity between zero and each of the three limits; the two that may be below zero count as
-- zero then.
abbrev pub IsWithin : Decimal → Decimal → Decimal → Decimal → Type 0
IsWithin requested available remaining q =
    Le zero_dec q
    × Le q requested
    × Le q (max_dec zero_dec available)
    × Le q (max_dec zero_dec remaining)

dispatched-IsWithin :
    (requested available remaining : Decimal)
    → lt_dec requested zero_dec ≡ false
    → IsWithin requested available remaining (dispatched_of requested available remaining)
dispatched-IsWithin requested available remaining h =
    let low = min_dec (min_dec requested available) remaining in
    let below_min : Le low (min_dec requested available) =
      min-le_left (min_dec requested available) remaining in
    let at_most : (limit : Decimal)
        → Le zero_dec limit
        → Le low limit
        → Le (max_dec zero_dec low) limit =
      λ limit. max-le zero_dec low limit in
    (
      le-max_left zero_dec low,
      at_most requested (not_lt-le requested zero_dec h)
          (le_trans low _ requested below_min (min-le_left requested available)),
      at_most (max_dec zero_dec available) (le-max_left zero_dec available) (
          le_trans low _ _ below_min (
            le_trans _ available _ (min-le_right requested available)
              (le-max_right zero_dec available))),
      at_most (max_dec zero_dec remaining) (le-max_left zero_dec remaining) (
          le_trans low remaining _ (min-le_right (min_dec requested available) remaining)
            (le-max_right zero_dec remaining)),
    )

-- What the books keep while a lot is sent.
send_lot-results :
    (period : ℕ) (route : Route) (order : ShipmentOrder) (q : Decimal) (b b' : Books)
    → send_lot period route order q b ≡ ok b'
    → (b'.shipment_results ≡ b.shipment_results) × (b'.shipment_ids ≡ b.shipment_ids)
unfolding send_lot
send_lot-results period route order q b b' h = elim (Bool-cases (is_zero q)) [
  | inl e ↦
      let same : b ≡ b' = ok-inj (rw e at h) in
      (
        ap (λ (x : Books). x.shipment_results) (sym same),
        ap (λ (x : Books). x.shipment_ids) (sym same),
      )
  | inr e ↦
      let (lot, _, k) = >>=-eq-ok (lot_post_init _) _ (rw e at h) in
      let same = ok-inj k in
      (
        ap (λ (x : Books). x.shipment_results) (sym same),
        ap (λ (x : Books). x.shipment_ids) (sym same),
      )
]

abbrev pub result_of : ShipmentOrder → Decimal → ShipmentResult
result_of order q = record {
  shipment_id = order.shipment_id;
  requested_quantity = order.requested_quantity;
  dispatched_quantity = q;
}

abbrev origin_key : Route → ShipmentOrder → StockKey
origin_key route order = (route.origin_site_id, order.commodity_id)

pub dispatch_on-IsWithin :
    (period : ℕ) (route : Route) (order : ShipmentOrder) (b b' : Books)
    → lt_dec order.requested_quantity zero_dec ≡ false
    → dispatch_on period route order b ≡ ok b'
    → (available : Decimal) × (remaining : Decimal) × (q : Decimal) × (free_stock
          (route.origin_site_id, order.commodity_id)
          b
        ≡ ok available)
      × (calc (sub route.capacity_per_period (amount route.route_id b.route_used)) ≡ ok remaining)
      × IsWithin order.requested_quantity available remaining q
      × (b'.shipment_results ≡ b.shipment_results ++ (result_of order q ∷ []))
      × (b'.shipment_ids ≡ b.shipment_ids)
unfolding dispatch_on
dispatch_on-IsWithin period route order b b' nonneg h =
    let (available, free, h1) = >>=-eq-ok (free_stock (origin_key route order) b) _ h in
    let (remaining, left, h2) =
      >>=-eq-ok (calc (sub route.capacity_per_period (amount route.route_id b.route_used))) _ h1 in
    let q = dispatched_of order.requested_quantity available remaining in
    let (b1, e1, h3) = >>=-eq-ok (debit_stock (origin_key route order) q b) _ h2 in
    let (d, _, e2) = >>=-eq-ok (debit (origin_key route order) q b.inventory) _ e1 in
    let same1 = ok-inj e2 in
    let (used, _, h4) = >>=-eq-ok (credit route.route_id q b1.route_used) _ h3 in
    let (b2, e3, h5) =
      >>=-eq-ok (send_lot period route order q (record b1 { route_used = used })) _ h4 in
    let kept = send_lot-results period route order q _ b2 e3 in
    let same2 = ok-inj h5 in
    (
      available,
      remaining,
      q,
      free,
      left,
      dispatched-IsWithin order.requested_quantity available remaining nonneg,
      ap (λ (x : Books). x.shipment_results) (sym same2)
          ∙ ap (λ rs. rs ++ (result_of order q ∷ []))
              (kept.0 ∙ ap (λ (x : Books). x.shipment_results) (sym same1)),
      ap (λ (x : Books). x.shipment_ids) (sym same2)
          ∙ kept.1
          ∙ ap (λ (x : Books). x.shipment_ids) (sym same1),
    )
