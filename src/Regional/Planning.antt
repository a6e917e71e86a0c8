-- ===== src/Regional/Planning.antt =====
-- regional_market.py: the planning of dispatches in `_simulate_market_month`. Stock that is left after
-- local needs is offered, and each shortage takes from the cheapest candidates.
pub mod Steps
pub mod Candidates
pub mod Refinement
pub mod Drawn
use Prim.Native.Nat.{Ordering}
use Prim.Native.String.{◌++◌ as append, compare as compare_text}
use baen_economy_engine.Prelude.{
  ℕ, zero, suc, ◌+◌, ◌-◌, ◌/◌, ◌%◌, Bool, true, false, ◌&&◌, ◌||◌, not, Option, none, some, String,
  List, [], ◌∷◌, ◌++◌, ltb, ◌==◌, str_eq, if◌then◌else◌, ok, err, ◌>>=◌, ◌>>◌,
}
use baen_economy_engine.Prelude.Int.{ℤ}
use baen_economy_engine.Prelude.Text.{number_text}
use baen_economy_engine.Prelude.Dict.{Dict, lookup, insert, string_eq, pair_eq}
use baen_economy_engine.Decimal.Number.{Decimal, zero_dec, lt_dec, is_zero, min_dec, max_dec}
use baen_economy_engine.Decimal.Context.{add, sub, digits}
use baen_economy_engine.Stockflow.Types.{
  InventoryPosition, Route, ShipmentOrder, Snapshot, EconomyModel,
}
use baen_economy_engine.Stockflow.Sorting.{sorted, ◌then_by◌, compare_dec, compare_int}
use baen_economy_engine.Stockflow.Books.{StockKey, amount, index_by}
use baen_economy_engine.Regional.Types.{Regional, RegionalError, unknown_reference, calculated}
use baen_economy_engine.Regional.Transport.{
  RouteCostTerms, dispatch_for_delivery, expected_transport_outcome,
}
use baen_economy_engine.Regional.Bids.{SupplyOffer, DemandBid, DemandReceipt}
use baen_economy_engine.Regional.Prices.{landed_price}

-- `_PlannedRouteTrade`
pub record PlannedTrade : Type 0 where
  pub shipment_id : String
  pub demand : DemandBid
  pub offer : SupplyOffer
  pub route_id : String
  pub dispatched_quantity : Decimal

-- The stock that can leave each site.
unfoldable pub exportable_from :
    List InventoryPosition → Dict StockKey Decimal → Regional (Dict StockKey Decimal)
exportable_from [] stock = ok stock
exportable_from (p ∷ ps) stock = do
  free ← calculated (sub p.quantity p.reserved_quantity)
  total ← calculated (add (amount (p.site_id, p.commodity_id) stock) free)
  exportable_from ps (insert (p.site_id, p.commodity_id) total stock)

abbrev pub offer_key : SupplyOffer → StockKey
offer_key o = (o.site_id, o.commodity_id)

-- `offer_budgets`: each offer reserves what it can of the stock at its site.
unfoldable pub budgets_from :
    List SupplyOffer → Dict StockKey Decimal → Dict String Decimal → Regional (Dict String Decimal)
budgets_from [] stock budgets = ok budgets
budgets_from (o ∷ os) stock budgets = do
  let budget = min_dec o.offered_quantity (amount (offer_key o) stock)
  left ← calculated (sub (amount (offer_key o) stock) budget)
  budgets_from os (insert (offer_key o) left stock) (insert o.offer_id budget budgets)

-- `route_remaining`
unfoldable pub capacities_from : List Route → Dict String Decimal → Dict String Decimal
capacities_from [] left = left
capacities_from (r ∷ rs) left = capacities_from rs (insert r.route_id r.capacity_per_period left)

-- The variables of the planning loops.
pub record Plans : Type 0 where
  pub budgets : Dict String Decimal
  pub route_remaining : Dict String Decimal
  pub sequence : ℕ
  pub orders : List ShipmentOrder
  pub planned : List PlannedTrade

-- A way to supply a demand. A route's id names it: the ids of a valid model's routes differ.
pub record Candidate : Type 0 where
  pub landed : Decimal
  pub allocation_priority : ℤ
  pub route : Route
  pub offer : SupplyOffer

-- The order of the tuples, up to the offer's id; no two candidates tie there.
abbrev pub compare_candidate : Candidate → Candidate → Ordering
compare_candidate a b =
    compare_dec a.landed b.landed
    then_by compare_int a.allocation_priority b.allocation_priority
    then_by compare_text a.route.route_id b.route.route_id
    then_by compare_text a.offer.offer_id b.offer.offer_id

-- The route goes from the offer to the demand and carries the commodity of both.
unfoldable pub connects : Route → SupplyOffer → DemandBid → Bool
connects r o d =
    str_eq r.origin_site_id o.site_id
    && (str_eq r.destination_site_id d.site_id
        && (str_eq r.commodity_id d.commodity_id && str_eq o.commodity_id d.commodity_id))

-- `landed_price > reservation`
abbrev pub is_too_dear : Option Decimal → Decimal → Bool
is_too_dear none landed = false
is_too_dear (some reservation) landed = lt_dec reservation landed

zeros_text : ℕ → String
zeros_text zero = ""
zeros_text (suc n) = append "0" (zeros_text n)

-- `f"{n:0{width}d}"`
unfoldable pub padded : ℕ → ℕ → String
unfolding zeros_text
padded width n = append (zeros_text (width - digits n)) (number_text n)

unfoldable pub shipment_name : ℕ → ℕ → String
shipment_name period sequence =
    append "shipment:market:" (append (padded 8 period) (append ":" (padded 6 sequence)))

module _ (m : EconomyModel) (opening : Snapshot) (terms : Dict String RouteCostTerms) where
  -- A candidate of one route, if its terms are known and its price is not above the reservation.
  unfoldable pub candidate_by :
      Option RouteCostTerms → Route → SupplyOffer → DemandBid → Regional (List Candidate)
  candidate_by none r o d = ok []
  candidate_by (some t) r o d = if not (connects r o d) then ok [] else do
    landed ← landed_price m opening r t
    if is_too_dear d.reservation_price_gp_per_delivered_unit landed
        then ok []
        else ok (
            record {
              landed = landed;
              allocation_priority = t.allocation_priority;
              route = r;
              offer = o;
            }
            ∷ [])

  unfoldable pub candidates_on : List Route → SupplyOffer → DemandBid → Regional (List Candidate)
  unfolding candidate_by
  candidates_on [] o d = ok []
  candidates_on (r ∷ rs) o d = do
    first ← candidate_by (lookup r.route_id terms) r o d
    others ← candidates_on rs o d
    ok (first ++ others)

  -- The candidates of every offer that has a budget left.
  unfoldable pub candidates_for :
      Dict String Decimal → List SupplyOffer → DemandBid → Regional (List Candidate)
  candidates_for budgets [] d = ok []
  candidates_for budgets (o ∷ os) d = do
    first ← (if is_zero (amount o.offer_id budgets) then ok [] else candidates_on m.routes o d)
    others ← candidates_for budgets os d
    ok (first ++ others)

-- A dispatch that is planned: its order, its trade, and what it takes from the offer and the route.
unfoldable pub book_dispatch :
    ℕ → String → DemandBid → Candidate → Decimal → Decimal → Decimal → Plans → Plans
book_dispatch period source d c dispatched budget room s =
    let id = shipment_name period (s.sequence + 1) in
    record {
      budgets = insert c.offer.offer_id budget s.budgets;
      route_remaining = insert c.route.route_id room s.route_remaining;
      sequence = s.sequence + 1;
      orders =
          s.orders
          ++ (record {
            shipment_id = id;
            route_id = c.route.route_id;
            commodity_id = c.route.commodity_id;
            requested_quantity = dispatched;
            source_ref = source;
            authorizing_event_id = none;
          }
              ∷ []);
      planned =
          s.planned
          ++ (record {
            shipment_id = id;
            demand = d;
            offer = c.offer;
            route_id = c.route.route_id;
            dispatched_quantity = dispatched;
          }
              ∷ []);
    }

module _ (period : ℕ) (source : String) (d : DemandBid) where
  -- The end of the loop's body, for a dispatch that is not zero: the plans, and the delivery still
  -- wanted.
  unfoldable pub send_dispatch : Candidate → Decimal → Decimal → Plans → Regional (Decimal × Plans)
  send_dispatch c dispatched wanted s = do
    outcome ← expected_transport_outcome c.route dispatched
    budget ← calculated (sub (amount c.offer.offer_id s.budgets) dispatched)
    room ← calculated (sub (amount c.route.route_id s.route_remaining) dispatched)
    left ← calculated (sub wanted (outcome.1))
    ok (max_dec zero_dec left, book_dispatch period source d c dispatched budget room s)

  -- The body of the loop over the candidates, for a delivery that is still wanted.
  unfoldable pub try_candidate : Candidate → Decimal → Plans → Regional (Decimal × Plans)
  unfolding send_dispatch
  try_candidate c wanted s = do
    dispatched ←
        dispatch_for_delivery c.route wanted (amount c.offer.offer_id s.budgets)
          (amount c.route.route_id s.route_remaining)
    if is_zero dispatched then ok (wanted, s) else send_dispatch c dispatched wanted s

  unfoldable pub try_candidates : List Candidate → Decimal → Plans → Regional Plans
  try_candidates [] wanted s = ok s
  try_candidates (c ∷ cs) wanted s =
      if is_zero wanted
      then ok s
      else do next ← try_candidate c wanted s; try_candidates cs (next.0) (next.1)

module _ (m : EconomyModel) (opening : Snapshot) (terms : Dict String RouteCostTerms) (period : ℕ)
    (source : String) (offers : List SupplyOffer) (receipts : Dict String DemandReceipt) where
  -- The body of the loop over the demands.
  unfoldable pub plan_shortage : DemandBid → Decimal → Plans → Regional Plans
  plan_shortage d shortage s = if is_zero shortage then ok s else do
    candidates ← candidates_for m opening terms s.budgets offers d
    try_candidates period source d (sorted compare_candidate candidates) shortage s

  unfoldable pub plan_demand : Option DemandReceipt → DemandBid → Plans → Regional Plans
  plan_demand none d s = err unknown_reference
  plan_demand (some r) d s = plan_shortage d r.shortage_quantity s

  unfoldable pub plan_demands : List DemandBid → Plans → Regional Plans
  unfolding plan_demand plan_shortage
  plan_demands [] s = ok s
  plan_demands (d ∷ ds) s = do
    s' ← plan_demand (lookup d.demand_id receipts) d s
    plan_demands ds s'
