-- ===== src/Regional/Month.antt =====
-- regional_market.py: `simulate_market_month`, a month of the market over the stock-flow kernel.
pub mod Starts
pub mod Solvent
pub mod Resolved
use Prim.Native.Nat.{Ordering}
use Prim.Native.String.{compare as compare_text}
use baen_economy_engine.Prelude.{
  ℕ, Bool, true, false, ◌||◌, not, Option, none, some, String, List, [], ◌∷◌, ◌++◌, map, ltb,
  str_eq, if◌then◌else◌, ok, err, ◌>>=◌, ◌>>◌, raise_if,
}
use baen_economy_engine.Prelude.Int.{ℤ}
use baen_economy_engine.Prelude.Dict.{Dict, lookup, string_eq}
use baen_economy_engine.Decimal.Number.{Decimal, eq_dec}
use baen_economy_engine.Events.Types.{Primitives}
use baen_economy_engine.Stockflow.Types.{
  Commodity, Route, ProductionOrder, ShipmentOrder, ShipmentResult, Need, RunPlan, Snapshot,
  EconomyModel,
}
use baen_economy_engine.Stockflow.Sorting.{sorted, ◌then_by◌, compare_dec, text_or_empty}
use baen_economy_engine.Stockflow.Books.{index_by, commodities_of, sites_of, routes_of}
use baen_economy_engine.Stockflow.Verify.{validate_snapshot, has_duplicate}
use baen_economy_engine.Stockflow.Advance.{RunResult, advance}
use baen_economy_engine.Regional.Types.{
  Regional, RegionalError, actual_timeline, bad_period, duplicate_id, unknown_reference,
  untracked_price, unknown_route, unresolved_dispatch, by_kernel, require_texts, require_scenario,
}
use baen_economy_engine.Regional.Transport.{RouteCostTerms, RouteUsageReceipt, compare_terms}
use baen_economy_engine.Regional.Bids.{
  SupplyOffer, compare_offer, DemandBid, compare_demand, DemandReceipt,
}
use baen_economy_engine.Regional.Trades.{TradeReceipt, compare_trade}
use baen_economy_engine.Regional.Prices.{demand_is_admitted}
use baen_economy_engine.Regional.Demands.{allocate_demand_receipts, demand_id_of}
use baen_economy_engine.Regional.Planning.{
  PlannedTrade, Plans, exportable_from, budgets_from, capacities_from, plan_demands,
}
use baen_economy_engine.Regional.Settlement.{
  sum_planned, cross_trade_receipts, local_trade_receipts, usage_receipts,
}

-- What `simulate_market_month` is called with, beside the model and the opening snapshot.
pub record MonthInput : Type 0 where
  pub period_index : ℕ
  pub campaign_ordinal : ℤ
  pub campaign_date : String
  pub supply_offers : List SupplyOffer
  pub demands : List DemandBid
  pub route_costs : List RouteCostTerms
  pub source_ref : String
  pub production_orders : List ProductionOrder

pub record MarketMonthResult : Type 0 where
  pub source_ref : String
  pub period_index : ℕ
  pub campaign_date : String
  pub snapshot : Snapshot
  pub run_result : RunResult
  pub demand_receipts : List DemandReceipt
  pub trade_receipts : List TradeReceipt
  pub route_usage : List RouteUsageReceipt
  pub authority : String
  pub canonical : Bool

-- `MarketMonthResult.__post_init__`; the snapshot is that of the run.
unfoldable pub month_post_init : MarketMonthResult → Regional MarketMonthResult
month_post_init r = do
  require_texts (r.source_ref ∷ r.campaign_date ∷ [])
  raise_if (ltb r.period_index 1) bad_period
  require_scenario r.authority r.canonical
  ok r

abbrev offer_id_of : SupplyOffer → String
offer_id_of o = o.offer_id

abbrev pub route_id_of : RouteCostTerms → String
route_id_of t = t.route_id

-- The input with its offers, demands and terms in order.
unfoldable pub sorted_input : MonthInput → MonthInput
sorted_input i = record i {
  supply_offers = sorted compare_offer i.supply_offers;
  demands = sorted compare_demand i.demands;
  route_costs = sorted compare_terms i.route_costs;
}

is_absent {ℓ} : {A : Type ℓ} → Option A → Bool
is_absent none = true
is_absent (some _) = false

check_offers : EconomyModel → List SupplyOffer → Regional (Unit {0})
unfolding is_absent
check_offers m [] = ok tt
check_offers m (o ∷ os) = do
  raise_if
      (is_absent (lookup o.site_id (sites_of m))
        || is_absent (lookup o.commodity_id (commodities_of m)))
      unknown_reference
  check_offers m os

-- A demand's commodity is known and has a price that is tracked.
check_tracked : Option Commodity → Regional (Unit {0})
check_tracked none = err unknown_reference
check_tracked (some c) = raise_if (not c.market_price_enabled) untracked_price

check_demands : EconomyModel → List DemandBid → Regional (Unit {0})
unfolding check_tracked is_absent
check_demands m [] = ok tt
check_demands m (d ∷ ds) = do
  raise_if (is_absent (lookup d.site_id (sites_of m))) unknown_reference
  check_tracked (lookup d.commodity_id (commodities_of m))
  check_demands m ds

check_routes : EconomyModel → List RouteCostTerms → Regional (Unit {0})
unfolding is_absent
check_routes m [] = ok tt
check_routes m (t ∷ ts) = do
  raise_if (is_absent (lookup t.route_id (routes_of m))) unknown_route
  check_routes m ts

module _ (prims : Primitives) (m : EconomyModel) (opening : Snapshot) where
  -- The checks before anything runs.
  unfoldable pub check_input : MonthInput → Regional (Unit {0})
  unfolding check_offers check_demands check_routes
  check_input i = do
    raise_if (str_eq opening.timeline_id "actual") actual_timeline
    raise_if (ltb i.period_index 1) bad_period
    require_texts (i.campaign_date ∷ i.source_ref ∷ [])
    by_kernel (validate_snapshot prims m opening)
    raise_if (has_duplicate (map offer_id_of i.supply_offers)) duplicate_id
    raise_if (has_duplicate (map demand_id_of i.demands)) duplicate_id
    raise_if (has_duplicate (map route_id_of i.route_costs)) duplicate_id
    check_offers m i.supply_offers
    check_demands m i.demands
    check_routes m i.route_costs

  -- The demands that accept the local price.
  unfoldable pub admitted_demands : List DemandBid → Regional (List DemandBid)
  admitted_demands [] = ok []
  admitted_demands (d ∷ ds) = do
    admitted ← demand_is_admitted m opening d
    rest ← admitted_demands ds
    ok (if admitted then d ∷ rest else rest)

abbrev need_of : DemandBid → Need
need_of d = record {
  site_id = d.site_id;
  commodity_id = d.commodity_id;
  requested_quantity = d.quantity;
  priority = d.priority;
  authorizing_event_id = none;
}

abbrev compare_production : ProductionOrder → ProductionOrder → Ordering
compare_production a b =
    compare_text a.recipe_id b.recipe_id
    then_by compare_dec a.requested_batches b.requested_batches
    then_by compare_text (text_or_empty a.authorizing_event_id)
        (text_or_empty b.authorizing_event_id)

-- The plan of a run, for the demands that are admitted and these shipments.
unfoldable pub plan_of : MonthInput → List DemandBid → List ShipmentOrder → RunPlan
plan_of i admitted orders = record {
  period_index = i.period_index;
  campaign_ordinal = i.campaign_ordinal;
  campaign_date = i.campaign_date;
  production_orders = sorted compare_production i.production_orders;
  shipment_orders = orders;
  needs = map need_of admitted;
  authorizing_events = [];
  simulation_assignments = [];
}

abbrev shipment_id_of : ShipmentResult → String
shipment_id_of r = r.shipment_id

unfoldable pub check_resolved : Option ShipmentResult → PlannedTrade → Regional (Unit {0})
check_resolved none t = err unresolved_dispatch
check_resolved (some r) t =
    raise_if (not (eq_dec r.dispatched_quantity t.dispatched_quantity)) unresolved_dispatch

-- Every planned dispatch is the one that the kernel made.
unfoldable pub check_dispatches :
    Dict String ShipmentResult → List PlannedTrade → Regional (Unit {0})
unfolding check_resolved
check_dispatches results [] = ok tt
check_dispatches results (t ∷ ts) = do
  check_resolved (lookup t.shipment_id results) t
  check_dispatches results ts

abbrev pub results_of : RunResult → Dict String ShipmentResult
results_of r = index_by shipment_id_of r.shipments []

abbrev compare_moved : String × Decimal → String × Decimal → Ordering
compare_moved (a, _) (b, _) = compare_text a b

abbrev pub terms_by_route : MonthInput → Dict String RouteCostTerms
terms_by_route i = index_by route_id_of i.route_costs []

module _ (prims : Primitives) (m : EconomyModel) (opening : Snapshot) (i : MonthInput) where
  -- The diagnostic run, and the plans that its shortages make.
  unfoldable pub plan_month : List DemandBid → Regional Plans
  plan_month admitted = do
    diagnostic ← by_kernel (advance prims m opening (plan_of i admitted []) none)
    receipts ← allocate_demand_receipts m opening diagnostic i.demands admitted
    stock ← exportable_from diagnostic.snapshot.inventories []
    budgets ← budgets_from i.supply_offers stock []
    plan_demands m opening (terms_by_route i) i.period_index i.source_ref i.supply_offers
        (index_by (λ (r : DemandReceipt). r.demand_id) receipts []) i.demands
        (record {
          budgets = budgets;
          route_remaining = capacities_from m.routes [];
          sequence = 0;
          orders = [];
          planned = [];
        })

  -- The receipts of a month whose run has been made.
  unfoldable pub settle_month : List DemandBid → Plans → RunResult → Regional MarketMonthResult
  settle_month admitted plans resolved = do
    check_dispatches (results_of resolved) plans.planned
    demand_receipts ← allocate_demand_receipts m opening resolved i.demands admitted
    cross ←
        cross_trade_receipts m opening i.period_index (routes_of m) (terms_by_route i) plans.planned
    by_offer ← sum_planned (λ t. t.offer.offer_id) plans.planned []
    locals ← local_trade_receipts m opening i.period_index demand_receipts i.supply_offers by_offer
    by_route ← sum_planned (λ t. t.route_id) plans.planned []
    usage ←
        usage_receipts i.period_index (routes_of m) (terms_by_route i)
          (sorted compare_moved by_route)
    month_post_init (record {
      source_ref = i.source_ref;
      period_index = i.period_index;
      campaign_date = i.campaign_date;
      snapshot = resolved.snapshot;
      run_result = resolved;
      demand_receipts = demand_receipts;
      trade_receipts = sorted compare_trade (cross ++ locals);
      route_usage = usage;
      authority = "scenario_input";
      canonical = false;
    })

  -- The month over an input in order.
  unfoldable pub run_month : Regional MarketMonthResult
  run_month = do
    check_input prims m opening i
    admitted ← admitted_demands prims m opening i.demands
    plans ← plan_month admitted
    resolved ← by_kernel (advance prims m opening (plan_of i admitted plans.orders) none)
    settle_month admitted plans resolved

-- `simulate_market_month`
unfoldable pub simulate_market_month :
    Primitives → EconomyModel → Snapshot → MonthInput → Regional MarketMonthResult
simulate_market_month prims m opening i = run_month prims m opening (sorted_input i)
