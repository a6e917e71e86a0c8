-- ===== src/Regional/Month/Resolved.antt =====
-- regional_market.py: what a month that `simulate_market_month` returns went through.
use baen_economy_engine.Prelude.{
  ◌≡◌, ◌≢◌, refl, sym, ap, ◌∙◌, subst, arith, true, not, Option, none, some, List, [], ◌∷◌, str_eq,
  eq_iff, ok, >>=-eq-ok, raise_if-ok, raise_if-passed, ok-inj, All, ltb,
}
use baen_economy_engine.Prelude.Dict.{lookup, string_eq}
use baen_economy_engine.Decimal.Number.{eq_dec}
use baen_economy_engine.Events.Types.{Primitives}
use baen_economy_engine.Stockflow.Types.{ShipmentResult, Snapshot, EconomyModel, route_post_init}
use baen_economy_engine.Stockflow.Sorting.{sorted-All}
use baen_economy_engine.Stockflow.Books.{routes_of}
use baen_economy_engine.Stockflow.Advance.{RunResult, advance}
use baen_economy_engine.Stockflow.Advance.Chain.{advance-IsChild, IsChild}
use baen_economy_engine.Regional.Types.{
  actual_timeline, unresolved_dispatch, bad_period, by_kernel, require_texts, require_scenario,
}
use baen_economy_engine.Regional.Bids.{compare_offer, DemandBid}
use baen_economy_engine.Regional.Demands.{allocate_demand_receipts}
use baen_economy_engine.Regional.Planning.{PlannedTrade, Plans}
use baen_economy_engine.Regional.Planning.Steps.{IsSolvent}
use baen_economy_engine.Regional.Planning.Refinement.{market_of}
use baen_economy_engine.Regional.Settlement.{
  cross_trade_receipts, local_trade_receipts, usage_receipts, sum_planned,
}
use baen_economy_engine.Regional.Month.{
  MonthInput, MarketMonthResult, month_post_init, sorted_input, check_input, admitted_demands,
  plan_of, check_resolved, check_dispatches, results_of, terms_by_route, plan_month, settle_month,
  run_month, simulate_market_month,
}
use baen_economy_engine.Regional.Month.Solvent.{by_kernel-ok, IsDrawn, plan_month-IsSolvent}
use baen_economy_engine.Regional.Month.Starts.{IsOffer}

-- The run made the dispatch of a planned trade.
abbrev pub IsMade : RunResult → PlannedTrade → Type 0
IsMade resolved t =
    (made : ShipmentResult) × (lookup t.shipment_id (results_of resolved) ≡ some made)
    × (eq_dec made.dispatched_quantity t.dispatched_quantity ≡ true)

check_resolved-eq :
    (found : Option ShipmentResult) (t : PlannedTrade)
    → check_resolved found t ≡ ok tt
    → (made : ShipmentResult) × (found ≡ some made)
      × (eq_dec made.dispatched_quantity t.dispatched_quantity ≡ true)
unfolding check_resolved
check_resolved-eq none t h = cc
check_resolved-eq (some made) t h =
    let same =
      raise_if-passed (not (eq_dec made.dispatched_quantity t.dispatched_quantity))
        unresolved_dispatch h in
    (made, refl, ground (arith, same))

check_dispatches-IsMade :
    (resolved : RunResult) (ts : List PlannedTrade)
    → check_dispatches (results_of resolved) ts ≡ ok tt
    → All (IsMade resolved) ts
unfolding check_dispatches
check_dispatches-IsMade resolved [] h = tt
check_dispatches-IsMade resolved (t ∷ ts) h =
    let (_, e, h1) =
      >>=-eq-ok (check_resolved (lookup t.shipment_id (results_of resolved)) t) _ h in
    (check_resolved-eq _ t e, check_dispatches-IsMade resolved ts h1)

month_post_init-eq : (r r' : MarketMonthResult) → month_post_init r ≡ ok r' → r ≡ r'
unfolding month_post_init
month_post_init-eq r r' h =
    let (_, _, h1) = >>=-eq-ok (require_texts (r.source_ref ∷ r.campaign_date ∷ [])) _ h in
    let (_, h2) = raise_if-ok (ltb r.period_index 1) bad_period _ h1 in
    let (_, _, h3) = >>=-eq-ok (require_scenario r.authority r.canonical) _ h2 in ok-inj h3

module _ (prims : Primitives) (m : EconomyModel) (opening : Snapshot) where
  check_input-scenario :
      (i : MonthInput) → check_input prims m opening i ≡ ok tt → opening.timeline_id ≢ "actual"
  unfolding check_input
  check_input-scenario i h e =
      let (scenario, _) = raise_if-ok (str_eq opening.timeline_id "actual") actual_timeline _ h in
      cc (scenario, (eq_iff opening.timeline_id "actual").1 e)

  -- The month reports this run: the dispatches that were planned are those that it made, and what the
  -- demands consumed is divided from its needs.
  abbrev pub Reports : MonthInput → List DemandBid → Plans → RunResult → MarketMonthResult → Type 0
  Reports i admitted plans resolved r =
      All (IsMade resolved) plans.planned
      × (r.run_result ≡ resolved)
      × (r.snapshot ≡ resolved.snapshot)
      × (allocate_demand_receipts m opening resolved i.demands admitted ≡ ok r.demand_receipts)

  settle_month-Reports :
      (i : MonthInput) (admitted : List DemandBid) (plans : Plans) (resolved : RunResult)
      (r : MarketMonthResult)
      → settle_month prims m opening i admitted plans resolved ≡ ok r
      → Reports i admitted plans resolved r
  unfolding settle_month
  settle_month-Reports i admitted plans resolved r h =
      let (_, made, h1) = >>=-eq-ok (check_dispatches (results_of resolved) plans.planned) _ h in
      let (receipts, divided, h2) =
        >>=-eq-ok (allocate_demand_receipts m opening resolved i.demands admitted) _ h1 in
      let (_, _, h3) =
        >>=-eq-ok
          (cross_trade_receipts m opening i.period_index (routes_of m) (terms_by_route i)
            plans.planned)
          _ h2 in
      let (by_offer, _, h4) =
        >>=-eq-ok (sum_planned (λ t. t.offer.offer_id) plans.planned []) _ h3 in
      let (_, _, h5) =
        >>=-eq-ok (local_trade_receipts m opening i.period_index receipts i.supply_offers by_offer)
          _ h4 in
      let (by_route, _, h6) = >>=-eq-ok (sum_planned (λ t. t.route_id) plans.planned []) _ h5 in
      let (_, _, h7) =
        >>=-eq-ok (usage_receipts i.period_index (routes_of m) (terms_by_route i) _) _ h6 in
      let same = month_post_init-eq _ r h7 in
      (
        check_dispatches-IsMade resolved plans.planned made,
        sym (ap (λ (x : MarketMonthResult). x.run_result) same),
        sym (ap (λ (x : MarketMonthResult). x.snapshot) same),
        divided ∙ ap (λ (x : MarketMonthResult). ok x.demand_receipts) same,
      )

  run_month-steps :
      (i : MonthInput) (r : MarketMonthResult)
      → run_month prims m opening i ≡ ok r
      → (opening.timeline_id ≢ "actual")
        × (admitted : List DemandBid) × (plans : Plans) × (resolved : RunResult) × (admitted_demands
              prims m opening i.demands
            ≡ ok admitted)
        × (plan_month prims m opening i admitted ≡ ok plans)
        × (advance prims m opening (plan_of i admitted plans.orders) none ≡ ok resolved)
        × Reports i admitted plans resolved r
  unfolding run_month
  run_month-steps i r h =
      let (_, checked, h1) = >>=-eq-ok (check_input prims m opening i) _ h in
      let (admitted, e, h2) = >>=-eq-ok (admitted_demands prims m opening i.demands) _ h1 in
      let (plans, planned, h3) = >>=-eq-ok (plan_month prims m opening i admitted) _ h2 in
      let (resolved, run, h4) =
        >>=-eq-ok (by_kernel (advance prims m opening (plan_of i admitted plans.orders) none)) _
          h3 in
      (
        check_input-scenario i checked,
        admitted,
        plans,
        resolved,
        e,
        planned,
        by_kernel-ok _ run,
        settle_month-Reports i admitted plans resolved r h4,
      )

  -- What the month's run has to do with its plans.
  abbrev pub Resolves : MonthInput → List DemandBid → Plans → MarketMonthResult → RunResult → Type 0
  Resolves i admitted plans r resolved =
      IsChild prims m opening (plan_of i admitted plans.orders) resolved
      × (r.snapshot ≡ resolved.snapshot)
      × (advance prims m opening (plan_of i admitted plans.orders) none ≡ ok resolved)
      × All (IsMade resolved) plans.planned
      × (allocate_demand_receipts m opening resolved i.demands admitted ≡ ok r.demand_receipts)

  -- A month that is returned was made on a timeline that is not the actual one. Its snapshot follows the
  -- opening one: one period on, with its hash as parent hash, on the same timeline and model. Over valid
  -- routes and offers, the demands that the engine admits and the plans that it makes for them overdraw no
  -- offer and no route; the month's run is the kernel's on the orders of these plans; it dispatched what
  -- each of their trades says; and the demand receipts are divided from what it consumed.
  pub simulate_market_month-IsResolved :
      (i : MonthInput) (r : MarketMonthResult)
      → All (λ route. route_post_init route ≡ ok route) m.routes
      → All IsOffer i.supply_offers
      → simulate_market_month prims m opening i ≡ ok r
      → (opening.timeline_id ≢ "actual")
        × (admitted : List DemandBid) × (plans : Plans) × (admitted_demands prims m opening
              (sorted_input i).demands
            ≡ ok admitted)
        × (plan_month prims m opening (sorted_input i) admitted ≡ ok plans)
        × IsSolvent m opening
            (terms_by_route (sorted_input i))
            (sorted_input i).supply_offers
            (sorted_input i).demands
            (market_of plans)
        × IsDrawn m.routes (sorted_input i).supply_offers (market_of plans)
        × Resolves (sorted_input i) admitted plans r r.run_result
  unfolding simulate_market_month sorted_input
  simulate_market_month-IsResolved i r routes offers h =
      let (scenario, admitted, plans, resolved, let_in, planned, run, (made, same, snap, divided)) =
        run_month-steps (sorted_input i) r h in
      let (child, _, _, _, _) =
        advance-IsChild prims m opening (plan_of (sorted_input i) admitted plans.orders) none
          resolved run in
      let (solvent, drawn) =
        plan_month-IsSolvent prims m opening (sorted_input i) admitted plans routes
          (sorted-All compare_offer IsOffer i.supply_offers offers) planned in
      (
        scenario,
        admitted,
        plans,
        let_in,
        planned,
        solvent,
        drawn,
        subst (Resolves (sorted_input i) admitted plans r) (sym same)
            (child, snap, run, made, divided),
      )
