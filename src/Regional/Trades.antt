-- ===== src/Regional/Trades.antt =====
-- regional_market.py: the receipts of trades.
use Prim.Native.Nat.{Ordering}
use Prim.Native.String.{compare as compare_text}
use baen_economy_engine.Prelude.{
  ℕ, ◌||◌, not, Option, none, some, String, [], ◌∷◌, leb, ltb, ◌==◌, str_eq, ok, ◌>>=◌, ◌>>◌,
  raise_if,
}
use baen_economy_engine.Prelude.Int.{pos}
use baen_economy_engine.Json.{Value, Fields, int, text, obj, end, field}
use baen_economy_engine.Decimal.Number.{Decimal, eq_dec, is_zero}
use baen_economy_engine.Decimal.Context.{add, mul}
use baen_economy_engine.Stockflow.Values.{dec, optional_text as text_or_null}
use baen_economy_engine.Regional.Types.{
  Regional, nonpositive_price, not_conserved, value_mismatch, cost_mismatch, total_mismatch,
  bad_periods, bad_status, calculated, require_texts, optional_text, require_nonnegative,
}

pub record TradeReceipt : Type 0 where
  pub trade_id : String
  pub demand_id : String
  pub supply_offer_id : String
  pub seller_entity_id : String
  pub buyer_entity_id : String
  pub carrier_entity_id : Option String
  pub seller_site_id : String
  pub buyer_site_id : String
  pub commodity_id : String
  pub route_id : Option String
  pub dispatched_quantity : Decimal
  pub expected_loss_quantity : Decimal
  pub delivered_quantity : Decimal
  pub goods_unit_price_gp : Decimal
  pub goods_value_gp : Decimal
  pub transport_unit_cost_gp : Decimal
  pub transport_cost_gp : Decimal
  pub buyer_total_gp : Decimal
  pub departure_period_index : ℕ
  pub arrival_period_index : ℕ
  pub delivery_status : String
  pub settlement_status : String

-- The status and the arrival of a local trade, and of one on a route.
check_delivery : Option String → TradeReceipt → Regional (Unit {0})
check_delivery none t = do
  raise_if
      (not (str_eq t.delivery_status "delivered")
        || not (str_eq t.settlement_status "settled_cash"))
      bad_status
  raise_if (not (t.arrival_period_index == t.departure_period_index)) bad_periods
check_delivery (some _) t = do
  raise_if
      (not (str_eq t.delivery_status "in_transit")
        || not (str_eq t.settlement_status "pending_delivery"))
      bad_status
  raise_if (leb t.arrival_period_index t.departure_period_index) bad_periods

-- The value of the goods, the cost of the transport, and their sum.
check_values : TradeReceipt → Regional (Unit {0})
check_values t = do
  goods ← calculated (mul t.dispatched_quantity t.goods_unit_price_gp)
  transport ← calculated (mul t.dispatched_quantity t.transport_unit_cost_gp)
  total ← calculated (add goods transport)
  raise_if (not (eq_dec t.goods_value_gp goods)) value_mismatch
  raise_if (not (eq_dec t.transport_cost_gp transport)) cost_mismatch
  raise_if (not (eq_dec t.buyer_total_gp total)) total_mismatch

-- `TradeReceipt.__post_init__`
unfoldable pub trade_post_init : TradeReceipt → Regional TradeReceipt
unfolding check_delivery check_values
trade_post_init t = do
  require_texts (
      t.trade_id ∷ t.demand_id ∷ t.supply_offer_id ∷ t.seller_entity_id ∷ t.buyer_entity_id
      ∷ t.seller_site_id ∷ t.buyer_site_id ∷ t.commodity_id ∷ t.delivery_status
      ∷ t.settlement_status ∷ [])
  require_texts (optional_text t.route_id)
  require_texts (optional_text t.carrier_entity_id)
  require_nonnegative (
      t.dispatched_quantity ∷ t.expected_loss_quantity ∷ t.delivered_quantity
      ∷ t.goods_unit_price_gp ∷ t.goods_value_gp ∷ t.transport_unit_cost_gp ∷ t.transport_cost_gp
      ∷ t.buyer_total_gp ∷ [])
  raise_if (is_zero t.goods_unit_price_gp) nonpositive_price
  reconciled ← calculated (add t.expected_loss_quantity t.delivered_quantity)
  raise_if (not (eq_dec t.dispatched_quantity reconciled)) not_conserved
  check_values t
  raise_if (ltb t.departure_period_index 1 || ltb t.arrival_period_index t.departure_period_index)
      bad_periods
  check_delivery t.route_id t
  ok t

-- The first field decides: the trades of a month have different ids.
abbrev pub compare_trade : TradeReceipt → TradeReceipt → Ordering
compare_trade a b = compare_text a.trade_id b.trade_id

-- The fields of the payload from the quantities on.
trade_amounts : TradeReceipt → Fields
trade_amounts t = field "dispatched_quantity" (dec t.dispatched_quantity) (
    field "expected_loss_quantity" (dec t.expected_loss_quantity) (
      field "delivered_quantity" (dec t.delivered_quantity) (
        field "goods_unit_price_gp" (dec t.goods_unit_price_gp) (
          field "goods_value_gp" (dec t.goods_value_gp) (
            field "transport_unit_cost_gp" (dec t.transport_unit_cost_gp) (
              field "transport_cost_gp" (dec t.transport_cost_gp) (
                field "buyer_total_gp" (dec t.buyer_total_gp) (
                  field "departure_period_index" (int (pos t.departure_period_index)) (
                    field "arrival_period_index" (int (pos t.arrival_period_index)) (
                      field "delivery_status" (text t.delivery_status)
                        (field "settlement_status" (text t.settlement_status) end)))))))))))

-- `TradeReceipt.to_payload`
unfoldable pub trade_payload : TradeReceipt → Value
unfolding trade_amounts
trade_payload t = obj (
    field "trade_id" (text t.trade_id) (
      field "demand_id" (text t.demand_id) (
        field "supply_offer_id" (text t.supply_offer_id) (
          field "seller_entity_id" (text t.seller_entity_id) (
            field "buyer_entity_id" (text t.buyer_entity_id) (
              field "carrier_entity_id" (text_or_null t.carrier_entity_id) (
                field "seller_site_id" (text t.seller_site_id) (
                  field "buyer_site_id" (text t.buyer_site_id) (
                    field "commodity_id" (text t.commodity_id)
                      (field "route_id" (text_or_null t.route_id) (trade_amounts t)))))))))))
