-- ===== src/Stockflow/Examples.antt =====
-- stockflow.py: the theorems of the kernel at runs on a small economy.
use mathlib.Core.List.{Perm}
use baen_economy_engine.Prelude.{◌≡◌, refl, true, false, none, some, String, List, ok, ◌++◌, All}
use baen_economy_engine.Prelude.Int.{pos}
use baen_economy_engine.Prelude.Text.{has_text}
use baen_economy_engine.Prelude.Dict.{contains, lookup, insert, string_eq, pair_eq}
use baen_economy_engine.Decimal.Number.{
  Decimal, whole, fraction, zero_dec, le_dec, lt_dec, eq_dec, is_zero, min_dec, max_dec,
}
use baen_economy_engine.Decimal.Context.{add, sub, mul, divide, fix, digits, half_even, negate}
use baen_economy_engine.Decimal.Order.{Le}
use baen_economy_engine.Stockflow.Types.{
  calc, TransitLot, ShipmentOrder, lot_post_init, inventory_post_init,
}
use baen_economy_engine.Stockflow.Sorting.{sorted}
use baen_economy_engine.Stockflow.Books.{
  Books, index_by, amount, credit, debit, free_stock, opening_books,
}
use baen_economy_engine.Stockflow.Arrivals.{arrivals, deliver, is_due}
use baen_economy_engine.Stockflow.Arrivals.Delivered.{arrival_ids, lot_ids, Stocked}
use baen_economy_engine.Stockflow.Arrivals.Partition.{IsArriving, IsWaiting, arrivals-Perm}
use baen_economy_engine.Stockflow.Production.{production_phase, feasible_batches}
use baen_economy_engine.Stockflow.Production.Bounds.{IsLimited, feasible_batches-IsLimited}
use baen_economy_engine.Stockflow.Shipments.{shipment_phase, dispatch_on}
use baen_economy_engine.Stockflow.Shipments.Phase.{IsShipped, Ships, shipment_phase-IsShipped}
use baen_economy_engine.Stockflow.Needs.{NeedKey, need_phase, consume}
use baen_economy_engine.Stockflow.Needs.Bounds.{IsBooked, consume-Le}
use baen_economy_engine.Stockflow.Price.{
  price_after_need, raw_factor, IsAnswer, price_after_need-IsAnswer,
}
use baen_economy_engine.Stockflow.Values.{snapshot_value, model_value}
use baen_economy_engine.Stockflow.Hashing.{
  canonical_hash, snapshot_hash, is_sha256, snapshot_id_of, ruleset_hash, validated_event_refs,
  plan_hash,
}
use baen_economy_engine.Stockflow.Verify.{validate_snapshot, seal, has_duplicate}
use baen_economy_engine.Stockflow.Verify.Facts.{IsSound, IsLater, validate_snapshot-IsSound}
use baen_economy_engine.Stockflow.Closing.{
  commodity_totals, check_books, closing_inventory, conservation, commodity_ids, closing_prices,
}
use baen_economy_engine.Stockflow.Closing.Totals.{holdings}
use baen_economy_engine.Stockflow.Closing.Conserved.{IsBalanced, IsConserved}
use baen_economy_engine.Stockflow.Advance.{run_phases, child_of, advance}
use baen_economy_engine.Stockflow.Advance.Chain.{
  IsChild, AppliesOnce, advance-IsChild, advance-IsConserved,
}
use baen_economy_engine.Stockflow.Fixture.{
  prims, economy, grain, mill, road, opening, plan, value_of, start, arrived, produced, shipped,
  result,
}

ran : advance prims economy opening plan none ≡ ok result
unfolding advance sorted has_text has_duplicate contains is_sha256 snapshot_hash canonical_hash
    snapshot_id_of le_dec lt_dec eq_dec is_zero min_dec max_dec lookup insert index_by amount add
    sub mul divide fix digits half_even credit debit free_stock opening_books lot_post_init
    inventory_post_init deliver is_due price_after_need snapshot_value model_value ruleset_hash
    validated_event_refs plan_hash negate validate_snapshot commodity_totals arrivals
    production_phase shipment_phase need_phase check_books closing_inventory conservation
    commodity_ids seal child_of closing_prices
ran = refl

advance-IsChild_example :
    IsChild prims economy opening plan result
    × AppliesOnce prims economy opening plan result
    × (result.snapshot.state_hash ≡ snapshot_hash prims result.snapshot)
    × IsSound result.snapshot
    × All (IsLater result.snapshot.period_index) result.snapshot.transit
advance-IsChild_example = advance-IsChild prims economy opening plan none result ran

advance-IsConserved_example :
    (b : Books) × (run_phases economy opening plan ≡ ok b)
    × IsBalanced economy b
    × Perm result.snapshot.transit b.transit
    × ((id : String)
        → IsConserved
            (holdings opening.inventories opening.transit)
            (holdings result.snapshot.inventories b.transit)
            b
            id)
advance-IsConserved_example = advance-IsConserved prims economy opening plan none result ran

opening_valid : validate_snapshot prims economy opening ≡ ok tt
unfolding validate_snapshot sorted has_text has_duplicate contains is_sha256 snapshot_hash
    canonical_hash snapshot_id_of le_dec lt_dec eq_dec is_zero min_dec max_dec lookup insert
    index_by amount add sub mul divide fix digits half_even credit debit free_stock opening_books
    lot_post_init inventory_post_init deliver is_due price_after_need snapshot_value model_value
    ruleset_hash validated_event_refs plan_hash negate
opening_valid = refl

validate_snapshot-IsSound_example :
    (opening.state_hash ≡ snapshot_hash prims opening)
    × IsSound opening
    × All (IsLater opening.period_index) opening.transit
validate_snapshot-IsSound_example = validate_snapshot-IsSound prims economy opening opening_valid

arrivals_run : arrivals 1 opening.transit start ≡ ok arrived
unfolding sorted has_text has_duplicate contains is_sha256 snapshot_hash canonical_hash
    snapshot_id_of le_dec lt_dec eq_dec is_zero min_dec max_dec lookup insert index_by amount add
    sub mul divide fix digits half_even credit debit free_stock opening_books lot_post_init
    inventory_post_init deliver is_due price_after_need snapshot_value model_value ruleset_hash
    validated_event_refs plan_hash negate arrivals production_phase shipment_phase need_phase
arrivals_run = refl

arrivals-Perm_example :
    (due : List TransitLot) × (later : List TransitLot) × Perm (due ++ later) opening.transit
    × All (IsArriving 1) due
    × All (IsWaiting 1) later
    × (arrival_ids arrived.flows ≡ arrival_ids start.flows ++ lot_ids due)
    × (arrived.transit ≡ start.transit ++ later)
    × Stocked due start.inventory arrived.inventory
arrivals-Perm_example = arrivals-Perm 1 opening.transit start arrived arrivals_run

batches_run : feasible_batches mill (whole 9) arrived ≡ ok (whole 3)
unfolding feasible_batches sorted has_text has_duplicate contains is_sha256 snapshot_hash
    canonical_hash snapshot_id_of le_dec lt_dec eq_dec is_zero min_dec max_dec lookup insert
    index_by amount add sub mul divide fix digits half_even credit debit free_stock opening_books
    lot_post_init inventory_post_init deliver is_due price_after_need snapshot_value model_value
    ruleset_hash validated_event_refs plan_hash negate arrivals production_phase shipment_phase
    need_phase
batches_run = refl

nonneg_request : lt_dec (whole 9) zero_dec ≡ false
unfolding lt_dec
nonneg_request = refl

feasible_batches-IsLimited_example :
    Le zero_dec (whole 3)
    × Le (whole 3) (whole 9)
    × ((remaining : Decimal) × (calc
            (sub mill.max_batches (amount mill.recipe_id arrived.recipe_batches_used))
          ≡ ok remaining)
        × Le (whole 3) (max_dec zero_dec remaining))
    × IsLimited mill arrived (whole 3) mill.inputs
feasible_batches-IsLimited_example =
    feasible_batches-IsLimited mill (whole 9) arrived (whole 3) nonneg_request batches_run

abbrev order : ShipmentOrder
order = record {
  shipment_id = "s3";
  route_id = "road";
  commodity_id = "grain";
  requested_quantity = whole 6;
  source_ref = "ledger";
  authorizing_event_id = none;
}

abbrev sent : Books
sent = value_of produced (dispatch_on 1 road order produced)

abbrev sent_all : Books
sent_all =
    value_of start
      (shipment_phase economy 1 opening.applied_shipment_ids plan.shipment_orders start)

phase_run :
    shipment_phase economy 1 opening.applied_shipment_ids plan.shipment_orders start ≡ ok sent_all
unfolding sorted has_text has_duplicate contains is_sha256 snapshot_hash canonical_hash
    snapshot_id_of le_dec lt_dec eq_dec is_zero min_dec max_dec lookup insert index_by amount add
    sub mul divide fix digits half_even credit debit free_stock opening_books lot_post_init
    inventory_post_init deliver is_due price_after_need snapshot_value model_value ruleset_hash
    validated_event_refs plan_hash negate arrivals production_phase shipment_phase need_phase
phase_run = refl

start-IsShipped : IsShipped opening.applied_shipment_ids start
unfolding opening_books
start-IsShipped = (tt, tt)

shipment_phase-IsShipped_example :
    IsShipped opening.applied_shipment_ids sent_all
    × ((queue : List ShipmentOrder) × Perm queue plan.shipment_orders × Ships queue start sent_all)
shipment_phase-IsShipped_example =
    shipment_phase-IsShipped economy 1 opening.applied_shipment_ids plan.shipment_orders start
      sent_all start-IsShipped phase_run

abbrev town_grain : NeedKey
town_grain = (pos 1, ("town", "grain"))

abbrev fed : Books
fed = value_of shipped (consume economy town_grain (whole 12) shipped)

consume_run : consume economy town_grain (whole 12) shipped ≡ ok fed
unfolding consume sorted has_text has_duplicate contains is_sha256 snapshot_hash canonical_hash
    snapshot_id_of le_dec lt_dec eq_dec is_zero min_dec max_dec lookup insert index_by amount add
    sub mul divide fix digits half_even credit debit free_stock opening_books lot_post_init
    inventory_post_init deliver is_due price_after_need snapshot_value model_value ruleset_hash
    validated_event_refs plan_hash negate arrivals production_phase shipment_phase need_phase
consume_run = refl

nonzero : is_zero (whole 12) ≡ false
unfolding is_zero
nonzero = refl

consume-Le_example :
    (available : Decimal) × (q : Decimal) × (free_stock ("town", "grain") shipped ≡ ok available)
    × (q ≡ min_dec (whole 12) available)
    × Le q (whole 12)
    × Le q available
    × IsBooked town_grain (whole 12) q shipped fed
consume-Le_example = consume-Le economy town_grain (whole 12) shipped fed nonzero consume_run

-- Ten asked for, four consumed, nothing left: the price rises from 2 by half of six tenths.
price_run :
    price_after_need grain (whole 10) (whole 4) (whole 0) (some (whole 2)) ≡ ok (fraction 2600 3)
unfolding price_after_need raw_factor sorted has_text has_duplicate contains is_sha256 snapshot_hash
    canonical_hash snapshot_id_of le_dec lt_dec eq_dec is_zero min_dec max_dec lookup insert
    index_by amount add sub mul divide fix digits half_even credit debit free_stock opening_books
    lot_post_init inventory_post_init deliver is_due snapshot_value model_value ruleset_hash
    validated_event_refs plan_hash negate
price_run = refl

floor_below : lt_dec grain.ceiling_factor grain.floor_factor ≡ false
unfolding lt_dec
floor_below = refl

price_after_need-IsAnswer_example :
    (grain.market_price_enabled ≡ true)
    × ((now : Decimal) × (some (whole 2) ≡ some now)
        × (le_dec now zero_dec ≡ false)
        × IsAnswer grain (whole 10) now (fraction 2600 3))
price_after_need-IsAnswer_example =
    price_after_need-IsAnswer grain (whole 10) (whole 4) (whole 0) (fraction 2600 3)
      (some (whole 2)) floor_below price_run
