-- ===== src/Stockflow/Shipments.antt =====
-- stockflow.py: the shipment loop of `_advance`. A shipment sends as much as the order, the free
-- stock at the origin and the capacity left on the route allow.
pub mod Bounds
pub mod Phase
use Prim.Native.Nat.{Ordering}
use Prim.Native.String.{compare as compare_text}
use baen_economy_engine.Prelude.{
  ℕ, ◌+◌, Bool, true, false, not, ◌||◌, Option, none, some, String, List, [], ◌∷◌, ◌++◌, Result, ok,
  err, ◌>>=◌, ◌>>◌, raise_if, if◌then◌else◌, str_eq,
}
use baen_economy_engine.Prelude.Dict.{Dict, lookup, insert, contains, string_eq, pair_eq}
use baen_economy_engine.Prelude.Text.{codes}
use baen_economy_engine.Decimal.Number.{Decimal, zero_dec, is_zero, lt_dec, min_dec, max_dec}
use baen_economy_engine.Decimal.Context.{sub}
use baen_economy_engine.Stockflow.Types.{
  Sim, calc, SimulationError, negative_request, duplicate_shipment, unknown_route,
  unknown_commodity, route_mismatch, dispatch, MaterialFlow, Route, Commodity, EconomyModel,
  ShipmentOrder, ShipmentResult, TransitLot, lot_post_init,
}
use baen_economy_engine.Stockflow.Sorting.{◌then_by◌, compare_dec, text_or_empty, sorted}
use baen_economy_engine.Stockflow.Books.{
  Books, amount, credit, free_stock, debit_stock, record_flow, routes_of, commodities_of,
}

-- The order of the fields of `ShipmentOrder`. Python cannot order an event against none; orders that
-- tie up to there share a shipment id, and the run raises for that.
abbrev pub compare_shipment : ShipmentOrder → ShipmentOrder → Ordering
compare_shipment a b =
    compare_text a.shipment_id b.shipment_id
    then_by compare_text a.route_id b.route_id
    then_by compare_text a.commodity_id b.commodity_id
    then_by compare_dec a.requested_quantity b.requested_quantity
    then_by compare_text a.source_ref b.source_ref
    then_by compare_text (text_or_empty a.authorizing_event_id)
        (text_or_empty b.authorizing_event_id)

-- `max(ZERO, min(requested, available_stock, remaining_capacity))`
abbrev pub dispatched_of : Decimal → Decimal → Decimal → Decimal
dispatched_of requested available remaining =
    max_dec zero_dec (min_dec (min_dec requested available) remaining)

-- `if dispatched: ...`
send_lot : ℕ → Route → ShipmentOrder → Decimal → Books → Sim Books
send_lot period route order dispatched b = if is_zero dispatched then ok b else do
  lot ← lot_post_init (record {
    shipment_id = order.shipment_id;
    route_id = route.route_id;
    commodity_id = order.commodity_id;
    origin_site_id = route.origin_site_id;
    destination_site_id = route.destination_site_id;
    quantity = dispatched;
    arrival_period_index = period + route.travel_periods;
    loss_rate = route.loss_rate;
  })
  ok (
      record_flow
        (record {
          kind = dispatch;
          site_id = route.origin_site_id;
          commodity_id = order.commodity_id;
          quantity = dispatched;
          reference_id = codes order.shipment_id;
        })
        (record b { transit = b.transit ++ (lot ∷ []) }))

abbrev add_result : ShipmentOrder → Decimal → Books → Books
add_result order dispatched b = record b {
  shipment_results =
      b.shipment_results
      ++ (record {
        shipment_id = order.shipment_id;
        requested_quantity = order.requested_quantity;
        dispatched_quantity = dispatched;
      }
          ∷ []);
}

-- The dispatch on a route that carries the order's commodity.
unfoldable pub dispatch_on : ℕ → Route → ShipmentOrder → Books → Sim Books
unfolding send_lot
dispatch_on period route order b = do
  available ← free_stock (route.origin_site_id, order.commodity_id) b
  remaining ← calc (sub route.capacity_per_period (amount route.route_id b.route_used))
  let dispatched = dispatched_of order.requested_quantity available remaining
  b ← debit_stock (route.origin_site_id, order.commodity_id) dispatched b
  used ← credit route.route_id dispatched b.route_used
  b ← send_lot period route order dispatched (record b { route_used = used })
  ok (add_result order dispatched b)

check_commodity : Option Commodity → Sim (Unit {0})
check_commodity none = err unknown_commodity
check_commodity (some _) = ok tt

ship_known : EconomyModel → ℕ → Option Route → ShipmentOrder → Books → Sim Books
unfolding dispatch_on check_commodity
ship_known m period none order b = err unknown_route
ship_known m period (some route) order b = do
  check_commodity (lookup order.commodity_id (commodities_of m))
  raise_if (not (str_eq order.commodity_id route.commodity_id)) route_mismatch
  dispatch_on period route order b

-- The body of the loop for one order; `applied` are the parent's shipment ids.
unfoldable pub ship : EconomyModel → ℕ → List String → ShipmentOrder → Books → Sim Books
unfolding ship_known
ship m period applied order b = do
  raise_if (lt_dec order.requested_quantity zero_dec) negative_request
  raise_if (contains order.shipment_id b.shipment_ids || contains order.shipment_id applied)
      duplicate_shipment
  ship_known m period (lookup order.route_id (routes_of m)) order
      (record b { shipment_ids = order.shipment_id ∷ b.shipment_ids })

unfoldable pub ship_each : EconomyModel → ℕ → List String → List ShipmentOrder → Books → Sim Books
unfolding ship
ship_each m period applied [] b = ok b
ship_each m period applied (order ∷ orders) b = do
  b ← ship m period applied order b
  ship_each m period applied orders b

-- `for order in sorted(plan.shipment_orders): ...`
unfoldable pub shipment_phase :
    EconomyModel → ℕ → List String → List ShipmentOrder → Books → Sim Books
unfolding ship_each
shipment_phase m period applied orders b =
    ship_each m period applied (sorted compare_shipment orders) b
