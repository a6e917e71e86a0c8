-- ===== src/Regional/Month/Solvent.antt =====
-- regional_market.py: the plans that `_simulate_market_month` starts from and ends with overdraw nothing.
use baen_economy_engine.Prelude.{◌≡◌, refl, none, String, List, [], ok, err, >>=-eq-ok, inl, All}
use baen_economy_engine.Prelude.Dict.{string_eq, pair_eq}
use baen_economy_engine.Decimal.Number.{Decimal, zero_dec}
use baen_economy_engine.Decimal.Order.{le_refl}
use baen_economy_engine.Events.Types.{Primitives}
use baen_economy_engine.Stockflow.Types.{Route, Snapshot, EconomyModel, Sim, route_post_init}
use baen_economy_engine.Stockflow.Books.{amount, index_by}
use baen_economy_engine.Stockflow.Advance.{advance}
use baen_economy_engine.Stockflow.Advance.Chain.{advance-IsChild}
use baen_economy_engine.Regional.Types.{by_kernel}
use baen_economy_engine.Regional.Bids.{SupplyOffer, DemandBid, DemandReceipt}
use baen_economy_engine.Regional.Demands.{allocate_demand_receipts}
use baen_economy_engine.Regional.Planning.{Plans, exportable_from, budgets_from, capacities_from}
use baen_economy_engine.Regional.Planning.Steps.{Market, IsSolvent, Sends-IsSolvent}
use baen_economy_engine.Regional.Planning.Drawn.{Drawn, Sends-Drawn_offer, Sends-Drawn_route}
use baen_economy_engine.Regional.Month.Starts.{
  IsOffer, IsBudget, IsCapacity, exportable_from-IsCovered, budgets_from-IsBudget,
  capacities_from-IsCapacity, nothing-IsCovered, nothing-amount,
}
use baen_economy_engine.Regional.Planning.Refinement.{market_of, plan_demands-Sends}
use baen_economy_engine.Regional.Month.{MonthInput, terms_by_route, plan_of, plan_month}

pub by_kernel-ok {ℓ} : {A : Type ℓ} (r : Sim A) {a : A} → by_kernel r ≡ ok a → r ≡ ok a
by_kernel-ok (ok a) h = cc
by_kernel-ok (err e) h = cc

-- What is left of each offer and of each route is what its planned trades leave of its start.
abbrev pub IsDrawn : List Route → List SupplyOffer → Market → Type 0
IsDrawn routes offers s =
    ((key : String)
      → (start : Decimal) × IsBudget offers key start
        × Drawn (λ t. t.offer.offer_id) key s.trades start (s.left_of key))
    × ((key : String)
        → (start : Decimal) × IsCapacity routes key start
          × Drawn (λ t. t.route_id) key s.trades start (s.room_on key))

module _ (prims : Primitives) (m : EconomyModel) (opening : Snapshot) (i : MonthInput) where
  -- The plans of a month, over valid routes and offers, overdraw no offer and no route, and every planned
  -- trade is one of a known offer, for one of the demands, by a known route that joins their sites and
  -- carries the commodity of both, at a landed price that the demand accepts. Each offer starts from
  -- nothing up to its quantity; the trades planned for it take their quantities from that one after the
  -- other, none more than is left, and what is left at the end is what they leave. So do the trades on
  -- each route, from its capacity.
  pub plan_month-IsSolvent :
      (admitted : List DemandBid) (plans : Plans)
      → All (λ r. route_post_init r ≡ ok r) m.routes
      → All IsOffer i.supply_offers
      → plan_month prims m opening i admitted ≡ ok plans
      → IsSolvent m opening (terms_by_route i) i.supply_offers i.demands (market_of plans)
        × IsDrawn m.routes i.supply_offers (market_of plans)
  unfolding plan_month
  plan_month-IsSolvent admitted plans routes offers h =
      let (diagnostic, run, h1) =
        >>=-eq-ok (by_kernel (advance prims m opening (plan_of i admitted []) none)) _ h in
      let (receipts, _, h2) =
        >>=-eq-ok (allocate_demand_receipts m opening diagnostic i.demands admitted) _ h1 in
      let (stock, e, h3) = >>=-eq-ok (exportable_from diagnostic.snapshot.inventories []) _ h2 in
      let (budgets, e1, h4) = >>=-eq-ok (budgets_from i.supply_offers stock []) _ h3 in
      let (_, _, _, sound, _) =
        advance-IsChild prims m opening (plan_of i admitted []) none diagnostic
          (by_kernel-ok _ run) in
      let stocked =
        exportable_from-IsCovered diagnostic.snapshot.inventories [] stock sound.0 nothing-IsCovered
          e in
      let covered =
        budgets_from-IsBudget i.supply_offers i.supply_offers stock [] budgets (λ o l. l) offers
          stocked (λ key. rw (nothing-amount key) (le_refl zero_dec, inl refl)) e1 in
      let rooms =
        capacities_from-IsCapacity m.routes m.routes [] (λ r l. l) routes
          (λ key. rw (nothing-amount key) (le_refl zero_dec, inl refl)) in
      let start : Plans = record {
        budgets = budgets;
        route_remaining = capacities_from m.routes [];
        sequence = 0;
        orders = [];
        planned = [];
      } in
      let steps =
        plan_demands-Sends m opening (terms_by_route i) i.supply_offers i.demands routes
          i.period_index i.source_ref (index_by (λ (r : DemandReceipt). r.demand_id) receipts [])
          start plans h4 in
      (
        Sends-IsSolvent m opening (terms_by_route i) i.supply_offers i.demands (market_of start)
            (market_of plans) steps
            (record {
              budgets = λ key. (covered key).0;
              rooms = λ key. (rooms key).0;
              offered = tt;
            }),
        (
          λ key. (
            amount key budgets,
            covered key,
            Sends-Drawn_offer m opening (terms_by_route i) i.supply_offers i.demands key _
                (market_of start) (market_of plans) steps refl,
          ),
          λ key. (
            amount key start.route_remaining,
            rooms key,
            Sends-Drawn_route m opening (terms_by_route i) i.supply_offers i.demands key _
                (market_of start) (market_of plans) steps refl,
          ),
        ),
      )
