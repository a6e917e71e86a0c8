-- ===== src/Regional/Settlement.antt =====
-- regional_market.py: `_cross_trade_receipts`, `_local_trade_receipts` and the sums by offer and route.
use Prim.Native.String.{◌++◌ as append}
use baen_economy_engine.Prelude.{
  ℕ, ◌+◌, Bool, ◌&&◌, not, Option, none, some, String, List, [], ◌∷◌, ◌++◌, str_eq, if◌then◌else◌,
  ok, err, ◌>>=◌,
}
use baen_economy_engine.Prelude.Dict.{Dict, lookup, insert, string_eq}
use baen_economy_engine.Decimal.Number.{Decimal, zero_dec, lt_dec, is_zero, min_dec, max_dec}
use baen_economy_engine.Decimal.Context.{add, sub, mul}
use baen_economy_engine.Stockflow.Types.{Route, Snapshot, EconomyModel}
use baen_economy_engine.Stockflow.Sorting.{sorted}
use baen_economy_engine.Stockflow.Books.{amount}
use baen_economy_engine.Regional.Types.{Regional, unknown_route, calculated}
use baen_economy_engine.Regional.Transport.{
  RouteCostTerms, RouteUsageReceipt, expected_transport_outcome, route_usage_receipt,
}
use baen_economy_engine.Regional.Bids.{SupplyOffer, compare_offer, DemandReceipt, compare_receipt}
use baen_economy_engine.Regional.Trades.{TradeReceipt, trade_post_init}
use baen_economy_engine.Regional.Prices.{price_at}
use baen_economy_engine.Regional.Planning.{PlannedTrade, padded}

-- `totals[key] += item.dispatched_quantity`, for each planned trade
unfoldable pub sum_planned :
    (PlannedTrade → String)
    → List PlannedTrade
    → Dict String Decimal
    → Regional (Dict String Decimal)
sum_planned key [] totals = ok totals
sum_planned key (t ∷ ts) totals = do
  total ← calculated (add (amount (key t) totals) t.dispatched_quantity)
  sum_planned key ts (insert (key t) total totals)

-- The variables of the loops: what is left of the offers, the sequence, and the receipts.
pub record LocalTrades : Type 0 where
  pub offer_remaining : Dict String Decimal
  pub sequence : ℕ
  pub receipts : List TradeReceipt

-- `offer_remaining`
remaining_from :
    List SupplyOffer → Dict String Decimal → Dict String Decimal → Regional (Dict String Decimal)
remaining_from [] dispatched left = ok left
remaining_from (o ∷ os) dispatched left = do
  rest ← calculated (sub o.offered_quantity (amount o.offer_id dispatched))
  remaining_from os dispatched (insert o.offer_id (max_dec zero_dec rest) left)

-- The offers that can serve a demand at its own site, from another entity.
unfoldable pub serves : DemandReceipt → Dict String Decimal → SupplyOffer → Bool
serves d left o =
    str_eq o.site_id d.site_id
    && (str_eq o.commodity_id d.commodity_id
        && (not (str_eq o.seller_entity_id d.buyer_entity_id)
            && lt_dec zero_dec (amount o.offer_id left)))

unfoldable pub serving : DemandReceipt → Dict String Decimal → List SupplyOffer → List SupplyOffer
serving d left [] = []
serving d left (o ∷ os) = let rest = serving d left os in if serves d left o then o ∷ rest else rest

module _ (m : EconomyModel) (opening : Snapshot) (period : ℕ) where
  -- The receipt of a planned trade.
  cross_trade : Option Route → Option RouteCostTerms → PlannedTrade → Regional TradeReceipt
  cross_trade (some route) (some terms) t = do
    outcome ← expected_transport_outcome route t.dispatched_quantity
    price ← price_at m opening route.origin_site_id route.commodity_id
    goods ← calculated (mul t.dispatched_quantity price)
    transport ← calculated (mul t.dispatched_quantity terms.transport_cost_gp_per_dispatched_unit)
    total ← calculated (add goods transport)
    trade_post_init (record {
      trade_id = append "trade:" t.shipment_id;
      demand_id = t.demand.demand_id;
      supply_offer_id = t.offer.offer_id;
      seller_entity_id = t.offer.seller_entity_id;
      buyer_entity_id = t.demand.buyer_entity_id;
      carrier_entity_id = terms.carrier_entity_id;
      seller_site_id = t.offer.site_id;
      buyer_site_id = t.demand.site_id;
      commodity_id = t.demand.commodity_id;
      route_id = some route.route_id;
      dispatched_quantity = t.dispatched_quantity;
      expected_loss_quantity = outcome.0;
      delivered_quantity = outcome.1;
      goods_unit_price_gp = price;
      goods_value_gp = goods;
      transport_unit_cost_gp = terms.transport_cost_gp_per_dispatched_unit;
      transport_cost_gp = transport;
      buyer_total_gp = total;
      departure_period_index = period;
      arrival_period_index = period + route.travel_periods;
      delivery_status = "in_transit";
      settlement_status = "pending_delivery";
    })
  cross_trade _ _ t = err unknown_route

  -- `_cross_trade_receipts`
  unfoldable pub cross_trade_receipts :
      Dict String Route
      → Dict String RouteCostTerms
      → List PlannedTrade
      → Regional (List TradeReceipt)
  unfolding cross_trade
  cross_trade_receipts routes terms [] = ok []
  cross_trade_receipts routes terms (t ∷ ts) = do
    trade ← cross_trade (lookup t.route_id routes) (lookup t.route_id terms) t
    trades ← cross_trade_receipts routes terms ts
    ok (trade ∷ trades)

  local_name : ℕ → String
  local_name sequence =
      append "trade:local:" (append (padded 8 period) (append ":" (padded 6 sequence)))

  -- A delivery at the site of both, with this price and this number in the sequence.
  local_trade : ℕ → DemandReceipt → SupplyOffer → Decimal → Regional TradeReceipt
  unfolding local_name
  local_trade sequence d o delivered = do
    price ← price_at m opening d.site_id d.commodity_id
    goods ← calculated (mul delivered price)
    trade_post_init (record {
      trade_id = local_name sequence;
      demand_id = d.demand_id;
      supply_offer_id = o.offer_id;
      seller_entity_id = o.seller_entity_id;
      buyer_entity_id = d.buyer_entity_id;
      carrier_entity_id = none;
      seller_site_id = o.site_id;
      buyer_site_id = d.site_id;
      commodity_id = d.commodity_id;
      route_id = none;
      dispatched_quantity = delivered;
      expected_loss_quantity = zero_dec;
      delivered_quantity = delivered;
      goods_unit_price_gp = price;
      goods_value_gp = goods;
      transport_unit_cost_gp = zero_dec;
      transport_cost_gp = zero_dec;
      buyer_total_gp = goods;
      departure_period_index = period;
      arrival_period_index = period;
      delivery_status = "delivered";
      settlement_status = "settled_cash";
    })

  serve_from : List SupplyOffer → DemandReceipt → Decimal → LocalTrades → Regional LocalTrades
  unfolding local_trade
  serve_from [] d wanted s = ok s
  serve_from (o ∷ os) d wanted s = if is_zero wanted then ok s else (do
    let delivered = min_dec wanted (amount o.offer_id s.offer_remaining)
    let skipped = serve_from os d wanted s
    if is_zero delivered then skipped else (do
      trade ← local_trade (s.sequence + 1) d o delivered
      left ← calculated (sub (amount o.offer_id s.offer_remaining) delivered)
      still ← calculated (sub wanted delivered)
      serve_from os d still (record {
        offer_remaining = insert o.offer_id left s.offer_remaining;
        sequence = s.sequence + 1;
        receipts = s.receipts ++ (trade ∷ []);
      })))

  serve_each : List DemandReceipt → List SupplyOffer → LocalTrades → Regional LocalTrades
  unfolding serve_from
  serve_each [] offers s = ok s
  serve_each (d ∷ ds) offers s = do
    s' ←
        (if is_zero d.consumed_quantity
          then ok s
          else serve_from (sorted compare_offer (serving d s.offer_remaining offers)) d
              d.consumed_quantity s)
    serve_each ds offers s'

  -- `_local_trade_receipts`
  unfoldable pub local_trade_receipts :
      List DemandReceipt → List SupplyOffer → Dict String Decimal → Regional (List TradeReceipt)
  unfolding remaining_from serve_each
  local_trade_receipts demands offers dispatched = do
    left ← remaining_from offers dispatched []
    s ←
        serve_each (sorted compare_receipt demands) offers
          (record { offer_remaining = left; sequence = 0; receipts = [] })
    ok s.receipts

module _ (period : ℕ) where
  usage_for : Option Route → Option RouteCostTerms → Decimal → Regional RouteUsageReceipt
  usage_for (some route) (some terms) moved = route_usage_receipt route terms moved period
  usage_for _ _ moved = err unknown_route

  -- The receipts of the routes that were used.
  unfoldable pub usage_receipts :
      Dict String Route
      → Dict String RouteCostTerms
      → List (String × Decimal)
      → Regional (List RouteUsageReceipt)
  unfolding usage_for
  usage_receipts routes terms [] = ok []
  usage_receipts routes terms ((id, moved) ∷ rest) = do
    r ← usage_for (lookup id routes) (lookup id terms) moved
    rs ← usage_receipts routes terms rest
    ok (r ∷ rs)
