-- ===== src/Stockflow/Closing.antt =====
-- stockflow.py: the end of `_advance`: the checks of the books, the closing inventory, and the
-- conservation of every commodity. `_commodity_totals`.
pub mod Totals
pub mod Conserved
use Prim.Native.Nat.{Ordering}
use Prim.Native.String.{compare as compare_text}
use baen_economy_engine.Prelude.{
  ℕ, Bool, true, false, ◌&&◌, ◌||◌, not, Option, none, some, String, List, [], ◌∷◌, ◌++◌, Result,
  ok, err, ◌>>=◌, ◌>>◌, raise_if, if◌then◌else◌,
}
use baen_economy_engine.Prelude.Dict.{Dict, Eq, contains, lookup, insert, string_eq, pair_eq}
use baen_economy_engine.Decimal.Number.{Decimal, zero_dec, is_zero, lt_dec}
use baen_economy_engine.Decimal.Context.{add, sub}
use baen_economy_engine.Stockflow.Types.{
  Sim, calc, SimulationError, negative_inventory, reservation_exceeds, labor_escaped, stock_escaped,
  route_oversubscribed, not_conserved, unknown_route, Route, InventoryPosition, inventory_post_init,
  PricePosition, TransitLot, EconomyModel,
}
use baen_economy_engine.Stockflow.Sorting.{◌then_by◌, compare_dec, sorted}
use baen_economy_engine.Stockflow.Books.{Books, StockKey, amount, credit, routes_of}

no_negative {ℓ} : {K : Type ℓ} → SimulationError → Dict K Decimal → Sim (Unit {0})
no_negative e [] = ok tt
no_negative e ((k, v) ∷ d) = do raise_if (lt_dec v zero_dec) e; no_negative e d

covered : Dict StockKey Decimal → Dict StockKey Decimal → Sim (Unit {0})
covered inventory [] = ok tt
covered inventory ((key, reserved) ∷ d) = do
  raise_if (lt_dec reserved zero_dec || lt_dec (amount key inventory) reserved) reservation_exceeds
  covered inventory d

-- `route_used[rid] > routes[rid].capacity_per_period`
over_capacity : Option Route → Decimal → Bool
over_capacity none used = true
over_capacity (some r) used = lt_dec r.capacity_per_period used

within_capacity : Dict String Route → Dict String Decimal → Sim (Unit {0})
unfolding over_capacity
within_capacity routes [] = ok tt
within_capacity routes ((id, used) ∷ d) = do
  raise_if (over_capacity (lookup id routes) used) route_oversubscribed
  within_capacity routes d

-- The four checks of the books.
unfoldable pub check_books : EconomyModel → Books → Sim (Unit {0})
unfolding no_negative covered within_capacity
check_books m b = do
  no_negative stock_escaped b.inventory
  covered b.inventory b.reserved
  no_negative labor_escaped b.labor_remaining
  within_capacity (routes_of m) b.route_used

abbrev pub compare_position : InventoryPosition → InventoryPosition → Ordering
compare_position a b =
    compare_text a.site_id b.site_id
    then_by compare_text a.commodity_id b.commodity_id
    then_by compare_dec a.quantity b.quantity
    then_by compare_dec a.reserved_quantity b.reserved_quantity

abbrev pub compare_price : PricePosition → PricePosition → Ordering
compare_price a b =
    compare_text a.site_id b.site_id
    then_by compare_text a.commodity_id b.commodity_id
    then_by compare_dec a.amount b.amount

-- The positions that are not zero.
positions_from : Dict StockKey Decimal → Dict StockKey Decimal → Sim (List InventoryPosition)
positions_from reserved [] = ok []
positions_from reserved (((site, commodity), quantity) ∷ d) = do
  rest ← positions_from reserved d
  if is_zero quantity then ok rest else do
    p ← inventory_post_init (record {
      site_id = site;
      commodity_id = commodity;
      quantity = quantity;
      reserved_quantity = amount (site, commodity) reserved;
    })
    ok (p ∷ rest)

unfoldable pub closing_inventory : Books → Sim (List InventoryPosition)
unfolding positions_from
closing_inventory b = do ps ← positions_from b.reserved b.inventory; ok (sorted compare_position ps)

prices_from : Dict StockKey Decimal → List PricePosition
prices_from [] = []
prices_from (((site, commodity), price) ∷ d) =
    record { site_id = site; commodity_id = commodity; amount = price } ∷ prices_from d

unfoldable pub closing_prices : Books → List PricePosition
unfolding prices_from
closing_prices b = sorted compare_price (prices_from b.prices)

total_positions : List InventoryPosition → Dict String Decimal → Sim (Dict String Decimal)
total_positions [] d = ok d
total_positions (p ∷ ps) d = do d ← credit p.commodity_id p.quantity d; total_positions ps d

total_lots : List TransitLot → Dict String Decimal → Sim (Dict String Decimal)
total_lots [] d = ok d
total_lots (lot ∷ lots) d = do d ← credit lot.commodity_id lot.quantity d; total_lots lots d

-- `_commodity_totals`
unfoldable pub commodity_totals :
    List InventoryPosition → List TransitLot → Sim (Dict String Decimal)
unfolding total_positions total_lots
commodity_totals ps lots = do d ← total_positions ps []; total_lots lots d

-- The keys of a dictionary joined with ids that are there already: a union of sets.
unite : Dict String Decimal → List String → List String
unite [] ids = ids
unite ((id, v) ∷ d) ids = if contains id ids then unite d ids else unite d (id ∷ ids)

unfoldable pub commodity_ids : Dict String Decimal → Dict String Decimal → Books → List String
unfolding unite
commodity_ids opening closing b = sorted compare_text (
    unite b.losses (
      unite b.consumed
        (unite b.recipe_inputs (unite b.produced (unite closing (unite opening []))))))

-- What is left over of one commodity.
unfoldable pub residual : Dict String Decimal → Dict String Decimal → Books → String → Sim Decimal
residual opening closing b id = do
  made ← calc (add (amount id opening) (amount id b.produced))
  after_inputs ← calc (sub made (amount id b.recipe_inputs))
  after_needs ← calc (sub after_inputs (amount id b.consumed))
  expected ← calc (sub after_needs (amount id b.losses))
  calc (sub expected (amount id closing))

-- The loop over the commodities; a residual that is not zero raises.
unfoldable pub conservation :
    Dict String Decimal → Dict String Decimal → Books → List String → Sim (List (String × Decimal))
unfolding residual
conservation opening closing b [] = ok []
conservation opening closing b (id ∷ ids) = do
  r ← residual opening closing b id
  raise_if (not (is_zero r)) not_conserved
  rest ← conservation opening closing b ids
  ok ((id, r) ∷ rest)
