-- ===== src/Regional/Bids.antt =====
-- regional_market.py: offers, bids, and the receipts of demands.
use Prim.Native.Nat.{Ordering}
use Prim.Native.String.{compare as compare_text}
use baen_economy_engine.Prelude.{
  Bool, ◌||◌, not, Option, none, some, String, [], ◌∷◌, ok, ◌>>=◌, ◌>>◌, raise_if,
}
use baen_economy_engine.Prelude.Int.{ℤ}
use baen_economy_engine.Json.{Value, null, int, text, obj, end, field}
use baen_economy_engine.Decimal.Number.{Decimal, zero_dec, le_dec, eq_dec, is_zero}
use baen_economy_engine.Decimal.Context.{add}
use baen_economy_engine.Stockflow.Sorting.{◌then_by◌, compare_dec, compare_int}
use baen_economy_engine.Stockflow.Values.{dec}
use baen_economy_engine.Regional.Types.{
  Regional, nonpositive_quantity, bad_reservation, nonpositive_price, not_conserved, calculated,
  require_texts, require_nonnegative, require_scenario,
}

pub record SupplyOffer : Type 0 where
  pub offer_id : String
  pub seller_entity_id : String
  pub site_id : String
  pub commodity_id : String
  pub offered_quantity : Decimal
  pub source_ref : String
  pub authority : String
  pub canonical : Bool

-- `SupplyOffer.__post_init__`
unfoldable pub offer_post_init : SupplyOffer → Regional SupplyOffer
offer_post_init o = do
  require_texts (o.offer_id ∷ o.seller_entity_id ∷ o.site_id ∷ o.commodity_id ∷ o.source_ref ∷ [])
  require_nonnegative (o.offered_quantity ∷ [])
  require_scenario o.authority o.canonical
  ok o

-- The order of the fields; the last two are the same for every offer.
abbrev pub compare_offer : SupplyOffer → SupplyOffer → Ordering
compare_offer a b =
    compare_text a.offer_id b.offer_id
    then_by compare_text a.seller_entity_id b.seller_entity_id
    then_by compare_text a.site_id b.site_id
    then_by compare_text a.commodity_id b.commodity_id
    then_by compare_dec a.offered_quantity b.offered_quantity
    then_by compare_text a.source_ref b.source_ref

pub record DemandBid : Type 0 where
  pub demand_id : String
  pub buyer_entity_id : String
  pub site_id : String
  pub commodity_id : String
  pub quantity : Decimal
  pub source_ref : String
  pub reservation_price_gp_per_delivered_unit : Option Decimal
  pub priority : ℤ
  pub authority : String
  pub canonical : Bool

check_reservation : Option Decimal → Regional (Unit {0})
check_reservation none = ok tt
check_reservation (some price) = raise_if (le_dec price zero_dec) bad_reservation

-- `DemandBid.__post_init__`
unfoldable pub demand_post_init : DemandBid → Regional DemandBid
unfolding check_reservation
demand_post_init d = do
  require_texts (d.demand_id ∷ d.buyer_entity_id ∷ d.site_id ∷ d.commodity_id ∷ d.source_ref ∷ [])
  raise_if (le_dec d.quantity zero_dec) nonpositive_quantity
  check_reservation d.reservation_price_gp_per_delivered_unit
  require_scenario d.authority d.canonical
  ok d

-- `_demand_sort_key`
abbrev pub compare_demand : DemandBid → DemandBid → Ordering
compare_demand a b =
    compare_int a.priority b.priority
    then_by compare_text a.site_id b.site_id
    then_by compare_text a.commodity_id b.commodity_id
    then_by compare_text a.demand_id b.demand_id
    then_by compare_text a.buyer_entity_id b.buyer_entity_id

pub record DemandReceipt : Type 0 where
  pub demand_id : String
  pub buyer_entity_id : String
  pub site_id : String
  pub commodity_id : String
  pub priority : ℤ
  pub requested_quantity : Decimal
  pub consumed_quantity : Decimal
  pub shortage_quantity : Decimal
  pub price_before_gp_per_unit : Decimal
  pub price_after_gp_per_unit : Decimal
  pub reservation_price_gp_per_delivered_unit : Option Decimal
  pub disposition : String

-- `DemandReceipt.__post_init__`
unfoldable pub demand_receipt_post_init : DemandReceipt → Regional DemandReceipt
demand_receipt_post_init r = do
  require_texts (r.demand_id ∷ r.buyer_entity_id ∷ r.site_id ∷ r.commodity_id ∷ r.disposition ∷ [])
  require_nonnegative (
      r.requested_quantity ∷ r.consumed_quantity ∷ r.shortage_quantity ∷ r.price_before_gp_per_unit
      ∷ r.price_after_gp_per_unit ∷ [])
  raise_if (is_zero r.price_before_gp_per_unit || is_zero r.price_after_gp_per_unit)
      nonpositive_price
  reconciled ← calculated (add r.consumed_quantity r.shortage_quantity)
  raise_if (not (eq_dec reconciled r.requested_quantity)) not_conserved
  ok r

-- The first field decides: the receipts of a month have different demand ids.
abbrev pub compare_receipt : DemandReceipt → DemandReceipt → Ordering
compare_receipt a b = compare_text a.demand_id b.demand_id

abbrev optional_dec : Option Decimal → Value
optional_dec none = null
optional_dec (some d) = dec d

-- `DemandReceipt.to_payload`
unfoldable pub demand_receipt_payload : DemandReceipt → Value
demand_receipt_payload r = obj (
    field "demand_id" (text r.demand_id) (
      field "buyer_entity_id" (text r.buyer_entity_id) (
        field "site_id" (text r.site_id) (
          field "commodity_id" (text r.commodity_id) (
            field "priority" (int r.priority) (
              field "requested_quantity" (dec r.requested_quantity) (
                field "consumed_quantity" (dec r.consumed_quantity) (
                  field "shortage_quantity" (dec r.shortage_quantity) (
                    field "price_before_gp_per_unit" (dec r.price_before_gp_per_unit) (
                      field "price_after_gp_per_unit" (dec r.price_after_gp_per_unit) (
                        field "reservation_price_gp_per_delivered_unit"
                          (optional_dec r.reservation_price_gp_per_delivered_unit)
                          (field "disposition" (text r.disposition) end))))))))))))
