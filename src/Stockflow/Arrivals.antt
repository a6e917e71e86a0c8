-- ===== src/Stockflow/Arrivals.antt =====
-- stockflow.py: the first loop of `_advance`. Lots that are due arrive, less what their route loses;
-- the others stay in transit.
pub mod Delivered
pub mod Partition
use Prim.Native.Nat.{Ordering, compare as compare_nat}
use Prim.Native.String.{compare as compare_text}
use baen_economy_engine.Prelude.{
  ℕ, ◌≡◌, ◌≤◌, ◌<◌, refl, sym, arith, Bool, true, false, not, Option, none, some, String, List, [],
  ◌∷◌, ◌++◌, leb, Result, ok, err, ◌>>=◌, ◌>>◌, if◌then◌else◌, Bool-cases, inl, inr, >>=-eq-ok, ap,
  ◌∙◌,
}
use baen_economy_engine.Prelude.Dict.{Dict, insert, string_eq, pair_eq}
use baen_economy_engine.Prelude.Text.{codes}
use baen_economy_engine.Decimal.Number.{Decimal, is_zero}
use baen_economy_engine.Decimal.Context.{mul, sub}
use baen_economy_engine.Stockflow.Types.{
  Sim, calc, FlowKind, arrival, route_loss, MaterialFlow, TransitLot,
}
use baen_economy_engine.Stockflow.Sorting.{◌then_by◌, compare_dec, sorted, sorted-Perm}
use baen_economy_engine.Stockflow.Books.{Books, credit, credit_stock, record_flow}

abbrev pub compare_lot : TransitLot → TransitLot → Ordering
compare_lot a b =
    compare_text a.shipment_id b.shipment_id
    then_by compare_text a.route_id b.route_id
    then_by compare_text a.commodity_id b.commodity_id
    then_by compare_text a.origin_site_id b.origin_site_id
    then_by compare_text a.destination_site_id b.destination_site_id
    then_by compare_dec a.quantity b.quantity
    then_by compare_nat a.arrival_period_index b.arrival_period_index
    then_by compare_dec a.loss_rate b.loss_rate

unfoldable pub is_due : ℕ → TransitLot → Bool
is_due period lot = leb lot.arrival_period_index period

-- `if lost: ...`
book_loss : TransitLot → Decimal → Books → Sim Books
book_loss lot lost b = if is_zero lost then ok b else do
  losses ← credit lot.commodity_id lost b.losses
  ok (
      record_flow
        (record {
          kind = route_loss;
          site_id = lot.destination_site_id;
          commodity_id = lot.commodity_id;
          quantity = lost;
          reference_id = codes lot.shipment_id;
        })
        (record b { losses = losses }))

-- The arrival of a lot that is due.
unfoldable pub deliver : TransitLot → Books → Sim Books
unfolding book_loss
deliver lot b = do
  lost ← calc (mul lot.quantity lot.loss_rate)
  delivered ← calc (sub lot.quantity lost)
  b ← credit_stock (lot.destination_site_id, lot.commodity_id) delivered b
  book_loss lot lost (
      record_flow
        (record {
          kind = arrival;
          site_id = lot.destination_site_id;
          commodity_id = lot.commodity_id;
          quantity = delivered;
          reference_id = codes lot.shipment_id;
        })
        b)

-- `transit.append(lot)`
abbrev keep_lot : TransitLot → Books → Books
keep_lot lot b = record b { transit = b.transit ++ (lot ∷ []) }

unfoldable pub arrive_each : ℕ → List TransitLot → Books → Sim Books
unfolding deliver is_due
arrive_each period [] b = ok b
arrive_each period (lot ∷ lots) b = do
  b ← (if is_due period lot then deliver lot b else ok (keep_lot lot b))
  arrive_each period lots b

-- `for lot in sorted(parent.transit): ...`
unfoldable pub arrivals : ℕ → List TransitLot → Books → Sim Books
unfolding arrive_each
arrivals period lots b = arrive_each period (sorted compare_lot lots) b
