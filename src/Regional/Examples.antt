-- ===== src/Regional/Examples.antt =====
-- regional_transport.py and regional_market.py: a month of a small market, and the theorems at it.
use baen_economy_engine.Regional.Planning.Steps.{IsSolvent, Sends}
use baen_economy_engine.Regional.Planning.Refinement.{market_of, plan_demands-Sends}
use baen_economy_engine.Regional.Month.Solvent.{IsDrawn, plan_month-IsSolvent}
use baen_economy_engine.Regional.Month.Resolved.{Resolves, simulate_market_month-IsResolved}
use baen_economy_engine.Stockflow.Price.{price_after_need}
use baen_economy_engine.Regional.Settlement.{
  sum_planned, serves, serving, cross_trade_receipts, local_trade_receipts, usage_receipts,
}
use baen_economy_engine.Regional.Prices.{price_at, demand_is_admitted, landed_price}
use baen_economy_engine.Regional.Trades.{trade_post_init}
use baen_economy_engine.Decimal.Text.{canonical_decimal}
use baen_economy_engine.Stockflow.Needs.{need_phase}
use baen_economy_engine.Stockflow.Shipments.{shipment_phase}
use baen_economy_engine.Stockflow.Production.{production_phase}
use baen_economy_engine.Stockflow.Closing.{
  commodity_totals, check_books, closing_inventory, conservation, commodity_ids, closing_prices,
}
use baen_economy_engine.Stockflow.Arrivals.{deliver, is_due, arrivals}
use baen_economy_engine.Stockflow.Hashing.{
  is_sha256, snapshot_hash, canonical_hash, snapshot_id_of, ruleset_hash, validated_event_refs,
  plan_hash,
}
use baen_economy_engine.Stockflow.Verify.{has_duplicate, validate_snapshot, seal}
use baen_economy_engine.Prelude.Text.{number_text, has_text, has_control, is_trimmed}
use baen_economy_engine.Stockflow.Sorting.{sorted}
use baen_economy_engine.Stockflow.Advance.{advance, child_of}
use baen_economy_engine.Prelude.{◌≡◌, ◌≢◌, refl, true, false, some, String, List, [], ◌∷◌, ok, err}
use baen_economy_engine.Prelude.Int.{pos}
use baen_economy_engine.Prelude.Dict.{Dict, string_eq, contains, lookup, insert}
use baen_economy_engine.Decimal.Number.{
  Decimal, zero_dec, whole, fraction, le_dec, lt_dec, is_zero, min_dec, max_dec, eq_dec,
}
use baen_economy_engine.Decimal.Context.{add, sub, mul, divide, fix, digits, half_even}
use baen_economy_engine.Stockflow.Types.{route_post_init, lot_post_init, inventory_post_init}
use baen_economy_engine.Stockflow.Books.{index_by, amount, credit, debit, free_stock, opening_books}
use baen_economy_engine.Stockflow.Fixture.{prims, economy, opening, road, result}
use baen_economy_engine.Regional.Types.{
  Regional, out_of_fuel, require_nonnegative, require_texts, require_scenario,
}
use baen_economy_engine.Decimal.Order.{Le}
use baen_economy_engine.Regional.Transport.Dispatch.{
  IsDispatch, dispatch_for_delivery-IsDispatch, dispatch_for_delivery-Ends,
}
use baen_economy_engine.Regional.Demands.Allocation.{IsFair, allocate_group-IsFair}
use baen_economy_engine.Regional.Transport.{
  RouteCostTerms, dispatch_for_delivery, loss_and_delivery, step_down, usage_post_init,
  expected_transport_outcome, route_usage_receipt,
}
use baen_economy_engine.Regional.Bids.{
  offer_post_init, SupplyOffer, DemandBid, DemandReceipt, demand_receipt_post_init,
}
use baen_economy_engine.Regional.Demands.{
  allocate_group, group_demands, allocate_groups, disposition_of, receipt_for, receipts_for,
  allocate_demand_receipts,
}
use baen_economy_engine.Regional.Planning.{
  Plans, plan_demands, exportable_from, budgets_from, capacities_from, connects, padded,
  shipment_name, candidate_by, candidates_on, candidates_for, book_dispatch, send_dispatch,
  try_candidate, try_candidates, plan_shortage, plan_demand,
}
use baen_economy_engine.Regional.Month.{
  terms_by_route, MonthInput, MarketMonthResult, sorted_input, plan_month, simulate_market_month,
  admitted_demands, month_post_init, check_input, plan_of, check_resolved, check_dispatches,
  settle_month, run_month,
}

abbrev cart : RouteCostTerms
cart = record {
  route_id = "road";
  transport_cost_gp_per_dispatched_unit = fraction 1 1;
  allocation_priority = pos 1;
  carrier_entity_id = some "carter";
  authority = "scenario_input";
  canonical = false;
}

abbrev harvest : SupplyOffer
harvest = record {
  offer_id = "o1";
  seller_entity_id = "farmer";
  site_id = "farm";
  commodity_id = "grain";
  offered_quantity = whole 8;
  source_ref = "book";
  authority = "scenario_input";
  canonical = false;
}

abbrev bakery : DemandBid
bakery = record {
  demand_id = "d1";
  buyer_entity_id = "baker";
  site_id = "town";
  commodity_id = "grain";
  quantity = whole 12;
  source_ref = "book";
  reservation_price_gp_per_delivered_unit = some (whole 9);
  priority = pos 1;
  authority = "scenario_input";
  canonical = false;
}

abbrev brewery : DemandBid
brewery = record bakery {
  demand_id = "d2";
  buyer_entity_id = "brewer";
  quantity = whole 3;
  priority = pos 2;
}

abbrev month : MonthInput
month = record {
  period_index = 1;
  campaign_ordinal = pos 130;
  campaign_date = "Kythorn 1372";
  supply_offers = harvest ∷ [];
  demands = brewery ∷ bakery ∷ [];
  route_costs = cart ∷ [];
  source_ref = "ledger";
  production_orders = [];
}

abbrev value_of {ℓ} : {A : Type ℓ} → A → Regional A → A
value_of default (ok a) = a
value_of default (err e) = default

abbrev dispatched : Decimal
dispatched = value_of zero_dec (dispatch_for_delivery road (whole 3) (whole 20) (whole 4))

abbrev no_month : MarketMonthResult
no_month = record {
  source_ref = "";
  period_index = 0;
  campaign_date = "";
  snapshot = opening;
  run_result = result;
  demand_receipts = [];
  trade_receipts = [];
  route_usage = [];
  authority = "";
  canonical = true;
}

abbrev outcome : MarketMonthResult
outcome = value_of no_month (simulate_market_month prims economy opening month)

abbrev no_plans : Plans
no_plans = record { budgets = []; route_remaining = []; sequence = 0; orders = []; planned = [] }

abbrev plans : Plans
plans = value_of no_plans (plan_month prims economy opening month (bakery ∷ []))

road_lem : route_post_init road ≡ ok road
unfolding route_post_init le_dec lt_dec
road_lem = refl

dispatched_lem : dispatch_for_delivery road (whole 3) (whole 20) (whole 4) ≡ ok dispatched
unfolding dispatch_for_delivery add sub mul divide fix digits half_even le_dec lt_dec is_zero
    min_dec max_dec require_nonnegative loss_and_delivery step_down
dispatched_lem = refl

dispatch_for_delivery-IsDispatch_example :
    IsDispatch road road_lem (whole 3) (whole 20) (whole 4) dispatched
dispatch_for_delivery-IsDispatch_example =
    dispatch_for_delivery-IsDispatch road road_lem (whole 3) (whole 20) (whole 4) dispatched
      dispatched_lem

dispatch_for_delivery-Ends_example :
    dispatch_for_delivery road (whole 3) (whole 20) (whole 4) ≢ err out_of_fuel
dispatch_for_delivery-Ends_example =
    dispatch_for_delivery-Ends road road_lem (whole 3) (whole 20) (whole 4)

-- Eleven units for two demands.
abbrev divided : Decimal × Dict String Decimal
divided = value_of (zero_dec, []) (allocate_group (bakery ∷ brewery ∷ []) (whole 11) [])

divided_lem : allocate_group (bakery ∷ brewery ∷ []) (whole 11) [] ≡ ok divided
unfolding allocate_group add sub fix digits half_even le_dec min_dec insert
divided_lem = refl

allocate_group-IsFair_example : IsFair (divided.1) (bakery ∷ brewery ∷ []) × Le zero_dec (divided.0)
unfolding contains le_dec
allocate_group-IsFair_example =
    allocate_group-IsFair (bakery ∷ brewery ∷ []) (whole 11) [] divided (refl, (refl, tt))
      (refl, (refl, tt)) refl divided_lem

harvest_lem : offer_post_init harvest ≡ ok harvest
unfolding offer_post_init require_texts require_nonnegative require_scenario has_text is_trimmed
    le_dec lt_dec
harvest_lem = refl

outcome_lem : simulate_market_month prims economy opening month ≡ ok outcome
unfolding advance sorted has_text has_control has_duplicate contains is_sha256 snapshot_hash
    canonical_hash snapshot_id_of le_dec lt_dec eq_dec is_zero min_dec max_dec lookup insert
    index_by amount add sub mul divide fix digits half_even credit debit free_stock opening_books
    lot_post_init inventory_post_init deliver is_due ruleset_hash validated_event_refs plan_hash
    validate_snapshot commodity_totals arrivals production_phase shipment_phase need_phase
    check_books closing_inventory conservation commodity_ids seal child_of closing_prices
    canonical_decimal trade_post_init usage_post_init loss_and_delivery expected_transport_outcome
    step_down dispatch_for_delivery route_usage_receipt demand_receipt_post_init exportable_from
    budgets_from capacities_from connects padded number_text shipment_name candidate_by
    candidates_on candidates_for book_dispatch send_dispatch try_candidate try_candidates
    plan_shortage plan_demand plan_demands group_demands allocate_group allocate_groups
    disposition_of receipt_for receipts_for allocate_demand_receipts month_post_init sorted_input
    check_input admitted_demands plan_of check_resolved check_dispatches plan_month settle_month
    run_month simulate_market_month price_at demand_is_admitted landed_price require_texts
    require_nonnegative require_scenario sum_planned serves serving cross_trade_receipts
    local_trade_receipts usage_receipts is_trimmed price_after_need
outcome_lem = refl

simulate_market_month-IsResolved_example :
    (opening.timeline_id ≢ "actual")
    × (admitted : List DemandBid) × (plans : Plans) × (admitted_demands prims economy opening
          (sorted_input month).demands
        ≡ ok admitted)
    × (plan_month prims economy opening (sorted_input month) admitted ≡ ok plans)
    × IsSolvent economy opening
        (terms_by_route (sorted_input month))
        (sorted_input month).supply_offers
        (sorted_input month).demands
        (market_of plans)
    × IsDrawn economy.routes (sorted_input month).supply_offers (market_of plans)
    × Resolves prims economy opening (sorted_input month) admitted plans outcome outcome.run_result
simulate_market_month-IsResolved_example =
    simulate_market_month-IsResolved prims economy opening month outcome (road_lem, tt)
      (harvest_lem, tt) outcome_lem

plans_lem : plan_month prims economy opening month (bakery ∷ []) ≡ ok plans
unfolding advance sorted has_text has_control has_duplicate contains is_sha256 snapshot_hash
    canonical_hash snapshot_id_of le_dec lt_dec eq_dec is_zero min_dec max_dec lookup insert
    index_by amount add sub mul divide fix digits half_even credit debit free_stock opening_books
    lot_post_init inventory_post_init deliver is_due ruleset_hash validated_event_refs plan_hash
    validate_snapshot commodity_totals arrivals production_phase shipment_phase need_phase
    check_books closing_inventory conservation commodity_ids seal child_of closing_prices
    canonical_decimal trade_post_init usage_post_init loss_and_delivery expected_transport_outcome
    step_down dispatch_for_delivery route_usage_receipt demand_receipt_post_init exportable_from
    budgets_from capacities_from connects padded number_text shipment_name candidate_by
    candidates_on candidates_for book_dispatch send_dispatch try_candidate try_candidates
    plan_shortage plan_demand plan_demands group_demands allocate_group allocate_groups
    disposition_of receipt_for receipts_for allocate_demand_receipts month_post_init sorted_input
    check_input admitted_demands plan_of check_resolved check_dispatches plan_month settle_month
    run_month simulate_market_month price_at demand_is_admitted landed_price require_texts
    require_nonnegative require_scenario sum_planned serves serving cross_trade_receipts
    local_trade_receipts usage_receipts is_trimmed price_after_need
plans_lem = refl

plan_month-IsSolvent_example :
    IsSolvent economy opening
      (terms_by_route month)
      (harvest ∷ [])
      (brewery ∷ bakery ∷ [])
      (market_of plans)
    × IsDrawn economy.routes (harvest ∷ []) (market_of plans)
plan_month-IsSolvent_example =
    plan_month-IsSolvent prims economy opening month (bakery ∷ []) plans (road_lem, tt)
      (harvest_lem, tt) plans_lem

-- Two demands that are short, of which the route can serve one and a part.
abbrev short : DemandReceipt
short = record {
  demand_id = "d1";
  buyer_entity_id = "baker";
  site_id = "town";
  commodity_id = "grain";
  priority = pos 1;
  requested_quantity = whole 12;
  consumed_quantity = whole 9;
  shortage_quantity = whole 3;
  price_before_gp_per_unit = whole 2;
  price_after_gp_per_unit = whole 3;
  reservation_price_gp_per_delivered_unit = some (whole 9);
  disposition = "partially_filled";
}

abbrev shortages : Dict String DemandReceipt
shortages = ("d1", short) ∷ ("d2", record short { demand_id = "d2" }) ∷ []

abbrev start : Plans
start = record no_plans { budgets = ("o1", whole 8) ∷ []; route_remaining = ("road", whole 4) ∷ [] }

abbrev shipped : Plans
shipped = value_of no_plans (
    plan_demands economy opening (("road", cart) ∷ []) 1 "ledger" (harvest ∷ []) shortages
      (bakery ∷ brewery ∷ []) start)

shipped_lem :
    plan_demands economy opening
      (("road", cart) ∷ [])
      1
      "ledger"
      (harvest ∷ [])
      shortages
      (bakery ∷ brewery ∷ [])
      start
    ≡ ok shipped
unfolding advance sorted has_text has_control has_duplicate contains is_sha256 snapshot_hash
    canonical_hash snapshot_id_of le_dec lt_dec eq_dec is_zero min_dec max_dec lookup insert
    index_by amount add sub mul divide fix digits half_even credit debit free_stock opening_books
    lot_post_init inventory_post_init deliver is_due ruleset_hash validated_event_refs plan_hash
    validate_snapshot commodity_totals arrivals production_phase shipment_phase need_phase
    check_books closing_inventory conservation commodity_ids seal child_of closing_prices
    canonical_decimal trade_post_init usage_post_init loss_and_delivery expected_transport_outcome
    step_down dispatch_for_delivery route_usage_receipt demand_receipt_post_init exportable_from
    budgets_from capacities_from connects padded number_text shipment_name candidate_by
    candidates_on candidates_for book_dispatch send_dispatch try_candidate try_candidates
    plan_shortage plan_demand plan_demands group_demands allocate_group allocate_groups
    disposition_of receipt_for receipts_for allocate_demand_receipts month_post_init sorted_input
    check_input admitted_demands plan_of check_resolved check_dispatches plan_month settle_month
    run_month simulate_market_month price_at demand_is_admitted landed_price require_texts
    require_nonnegative require_scenario sum_planned serves serving cross_trade_receipts
    local_trade_receipts usage_receipts is_trimmed price_after_need
shipped_lem = refl

plan_demands-Sends_example :
    Sends economy opening
      (("road", cart) ∷ [])
      (harvest ∷ [])
      (bakery ∷ brewery ∷ [])
      (market_of start)
      (market_of shipped)
plan_demands-Sends_example =
    plan_demands-Sends economy opening (("road", cart) ∷ []) (harvest ∷ []) (bakery ∷ brewery ∷ [])
      (road_lem, tt) 1 "ledger" shortages start shipped shipped_lem
