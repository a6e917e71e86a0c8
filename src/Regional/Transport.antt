-- ===== src/Regional/Transport.antt =====
-- regional_transport.py: cost terms, receipts and the planning of dispatches.
pub mod Loop
pub mod Dispatch
use Prim.Native.Nat.{Ordering}
use Prim.Native.String.{compare as compare_text}
use baen_economy_engine.Prelude.{
  ℕ, zero, suc, ◌+◌, Bool, true, false, ◌||◌, not, Option, none, some, String, List, [], ◌∷◌, ◌++◌,
  ltb, str_eq, if◌then◌else◌, ok, err, ◌>>=◌, ◌>>◌, raise_if,
}
use baen_economy_engine.Prelude.Int.{ℤ, pos}
use baen_economy_engine.Json.{Value, int, text, obj, end, field}
use baen_economy_engine.Decimal.Number.{
  Decimal, zero_dec, one_dec, le_dec, lt_dec, eq_dec, is_zero, min_dec, max_dec,
}
use baen_economy_engine.Decimal.Context.{add, sub, mul, divide}
use baen_economy_engine.Decimal.Next.{next_minus}
use baen_economy_engine.Decimal.Next.Descent.{rank}
use baen_economy_engine.Stockflow.Types.{Route}
use baen_economy_engine.Stockflow.Values.{dec, optional_text as text_or_null}
use baen_economy_engine.Stockflow.Sorting.{◌then_by◌, compare_dec, compare_int}
use baen_economy_engine.Regional.Types.{
  Regional, RegionalError, over_capacity, not_conserved, bad_arrival, cost_mismatch, route_mismatch,
  bad_departure, negative_amount, out_of_fuel, calculated, require_texts, optional_text,
  require_nonnegative, require_scenario,
}

pub record RouteCostTerms : Type 0 where
  pub route_id : String
  pub transport_cost_gp_per_dispatched_unit : Decimal
  pub allocation_priority : ℤ
  pub carrier_entity_id : Option String
  pub authority : String
  pub canonical : Bool

-- `RouteCostTerms.__post_init__`
unfoldable pub terms_post_init : RouteCostTerms → Regional RouteCostTerms
terms_post_init t = do
  require_texts (t.route_id ∷ [])
  require_nonnegative (t.transport_cost_gp_per_dispatched_unit ∷ [])
  require_texts (optional_text t.carrier_entity_id)
  require_scenario t.authority t.canonical
  ok t

-- The order of the fields. Terms that tie so far share a route id, and the market raises for that.
abbrev pub compare_terms : RouteCostTerms → RouteCostTerms → Ordering
compare_terms a b =
    compare_text a.route_id b.route_id
    then_by compare_dec a.transport_cost_gp_per_dispatched_unit
        b.transport_cost_gp_per_dispatched_unit
    then_by compare_int a.allocation_priority b.allocation_priority

pub record RouteUsageReceipt : Type 0 where
  pub route_id : String
  pub commodity_id : String
  pub origin_site_id : String
  pub destination_site_id : String
  pub carrier_entity_id : Option String
  pub quantity_moved : Decimal
  pub capacity : Decimal
  pub expected_loss_quantity : Decimal
  pub expected_delivered_quantity : Decimal
  pub transport_cost_gp_per_dispatched_unit : Decimal
  pub transport_cost_gp : Decimal
  pub arrival_period_index : ℕ

-- `RouteUsageReceipt.__post_init__`
unfoldable pub usage_post_init : RouteUsageReceipt → Regional RouteUsageReceipt
usage_post_init r = do
  require_texts (r.route_id ∷ r.commodity_id ∷ r.origin_site_id ∷ r.destination_site_id ∷ [])
  require_texts (optional_text r.carrier_entity_id)
  require_nonnegative (
      r.quantity_moved ∷ r.capacity ∷ r.expected_loss_quantity ∷ r.expected_delivered_quantity
      ∷ r.transport_cost_gp_per_dispatched_unit ∷ r.transport_cost_gp ∷ [])
  raise_if (lt_dec r.capacity r.quantity_moved) over_capacity
  reconciled ← calculated (add r.expected_loss_quantity r.expected_delivered_quantity)
  raise_if (not (eq_dec reconciled r.quantity_moved)) not_conserved
  raise_if (ltb r.arrival_period_index 1) bad_arrival
  cost ← calculated (mul r.quantity_moved r.transport_cost_gp_per_dispatched_unit)
  raise_if (not (eq_dec r.transport_cost_gp cost)) cost_mismatch
  ok r

-- `remaining_capacity`
unfoldable pub remaining_capacity : RouteUsageReceipt → Regional Decimal
remaining_capacity r = calculated (sub r.capacity r.quantity_moved)

-- `RouteUsageReceipt.to_payload`
unfoldable pub usage_payload : RouteUsageReceipt → Regional Value
unfolding remaining_capacity
usage_payload r = do
  remaining ← remaining_capacity r
  ok (
      obj (
        field "route_id" (text r.route_id) (
          field "commodity_id" (text r.commodity_id) (
            field "origin_site_id" (text r.origin_site_id) (
              field "destination_site_id" (text r.destination_site_id) (
                field "carrier_entity_id" (text_or_null r.carrier_entity_id) (
                  field "quantity_moved" (dec r.quantity_moved) (
                    field "capacity" (dec r.capacity) (
                      field "remaining_capacity" (dec remaining) (
                        field "expected_loss_quantity" (dec r.expected_loss_quantity) (
                          field "expected_delivered_quantity" (dec r.expected_delivered_quantity) (
                            field "transport_cost_gp_per_dispatched_unit"
                              (dec r.transport_cost_gp_per_dispatched_unit)
                              (field "transport_cost_gp" (dec r.transport_cost_gp) (
                                field "arrival_period_index" (int (pos r.arrival_period_index))
                                  end))))))))))))))

-- What of a quantity is lost on the route, and what arrives.
unfoldable pub loss_and_delivery : Decimal → Decimal → Regional (Decimal × Decimal)
loss_and_delivery rate moved = do
  loss ← calculated (mul moved rate)
  delivered ← calculated (sub moved loss)
  ok (loss, delivered)

-- `expected_transport_outcome`
unfoldable pub expected_transport_outcome : Route → Decimal → Regional (Decimal × Decimal)
expected_transport_outcome route moved = do
  raise_if (lt_dec moved zero_dec) negative_amount
  raise_if (lt_dec route.capacity_per_period moved) over_capacity
  loss_and_delivery route.loss_rate moved

-- The loop that steps a dispatch down until its delivery is no more than the desired one.
unfoldable pub step_down : ℕ → Decimal → Decimal → Decimal → Regional Decimal
step_down zero rate desired dispatched = err out_of_fuel
step_down (suc fuel) rate desired dispatched = do
  outcome ← loss_and_delivery rate dispatched
  elim (le_dec outcome.1 desired) [
    | true ↦ ok dispatched
    | false ↦ step_down fuel rate desired (next_minus dispatched)
  ]

-- The quotient that is tried first, or the most that can be sent. The fuel is the place of that number
-- among those that the context stores.
plan_dispatch : Decimal → Decimal → Decimal → Decimal → Regional Decimal
plan_dispatch rate desired maximum survival = do
  quotient ← calculated (divide desired survival)
  let first = if lt_dec maximum quotient then maximum else quotient
  dispatched ← step_down (suc (rank first)) rate desired first
  ok (max_dec zero_dec dispatched)

dispatch_below : Decimal → Decimal → Decimal → Regional Decimal
dispatch_below rate desired maximum = do
  survival ← calculated (sub one_dec rate)
  outcome ← loss_and_delivery rate maximum
  if le_dec outcome.1 desired then ok maximum else plan_dispatch rate desired maximum survival

abbrev pub most_of : Route → Decimal → Decimal → Decimal
most_of route stock capacity = min_dec (min_dec stock capacity) route.capacity_per_period

-- `dispatch_for_delivery`
unfoldable pub dispatch_for_delivery : Route → Decimal → Decimal → Decimal → Regional Decimal
unfolding dispatch_below plan_dispatch
dispatch_for_delivery route desired stock capacity = do
  require_nonnegative (desired ∷ stock ∷ capacity ∷ [])
  if is_zero desired || is_zero (most_of route stock capacity)
      then ok zero_dec
      else dispatch_below route.loss_rate desired (most_of route stock capacity)

-- `route_usage_receipt`
unfoldable pub route_usage_receipt :
    Route → RouteCostTerms → Decimal → ℕ → Regional RouteUsageReceipt
route_usage_receipt route terms moved departure = do
  raise_if (not (str_eq terms.route_id route.route_id)) route_mismatch
  raise_if (ltb departure 1) bad_departure
  outcome ← expected_transport_outcome route moved
  cost ← calculated (mul moved terms.transport_cost_gp_per_dispatched_unit)
  usage_post_init (record {
    route_id = route.route_id;
    commodity_id = route.commodity_id;
    origin_site_id = route.origin_site_id;
    destination_site_id = route.destination_site_id;
    carrier_entity_id = terms.carrier_entity_id;
    quantity_moved = moved;
    capacity = route.capacity_per_period;
    expected_loss_quantity = outcome.0;
    expected_delivered_quantity = outcome.1;
    transport_cost_gp_per_dispatched_unit = terms.transport_cost_gp_per_dispatched_unit;
    transport_cost_gp = cost;
    arrival_period_index = departure + route.travel_periods;
  })
