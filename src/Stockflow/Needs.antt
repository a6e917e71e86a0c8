-- ===== src/Stockflow/Needs.antt =====
-- stockflow.py: the two loops over the needs in `_advance`. Needs of one priority, site and
-- commodity are added up; each sum consumes what stock is free, and the price answers.
pub mod Bounds
use Prim.Native.Nat.{Ordering}
use Prim.Native.String.{compare as compare_text}
use baen_economy_engine.Prelude.{
  ℕ, ◌≡◌, ◌↔◌, Bool, true, false, not, ◌||◌, Option, none, some, String, List, [], ◌∷◌, ◌++◌,
  Result, ok, err, ◌>>=◌, ◌>>◌, raise_if, if◌then◌else◌, arith,
}
use baen_economy_engine.Prelude.Int.{ℤ, eqb_ℤ, eqb_ℤ_iff}
use baen_economy_engine.Prelude.Dict.{Dict, Eq, lookup, insert, contains, string_eq, pair_eq}
use baen_economy_engine.Prelude.Text.{codes}
use baen_economy_engine.Json.{int_text}
use baen_economy_engine.Decimal.Number.{Decimal, zero_dec, is_zero, lt_dec, min_dec}
use baen_economy_engine.Decimal.Context.{sub}
use baen_economy_engine.Stockflow.Types.{
  Sim, calc, SimulationError, negative_request, unknown_site, unknown_commodity, consumption,
  MaterialFlow, Commodity, EconomyModel, Need, NeedResult, Site,
}
use baen_economy_engine.Stockflow.Sorting.{
  ◌then_by◌, compare_dec, compare_int, text_or_empty, sorted,
}
use baen_economy_engine.Stockflow.Price.{price_after_need}
use baen_economy_engine.Stockflow.Books.{
  Books, StockKey, credit, free_stock, debit_stock, record_flow, sites_of, commodities_of,
}

instance abbrev pub int_eq : Eq ℤ
int_eq = record { beq = eqb_ℤ; beq_iff = eqb_ℤ_iff }

-- (priority, site, commodity)
abbrev pub NeedKey : Type 0
NeedKey = ℤ × StockKey

abbrev pub compare_need : Need → Need → Ordering
compare_need a b =
    compare_int a.priority b.priority
    then_by compare_text a.site_id b.site_id
    then_by compare_text a.commodity_id b.commodity_id
    then_by compare_dec a.requested_quantity b.requested_quantity
    then_by compare_text (text_or_empty a.authorizing_event_id)
        (text_or_empty b.authorizing_event_id)

abbrev pub compare_total : NeedKey × Decimal → NeedKey × Decimal → Ordering
compare_total ((p, (s, c)), q) ((p', (s', c')), q') =
    compare_int p p' then_by compare_text s s' then_by compare_text c c' then_by compare_dec q q'

is_absent {ℓ} : {A : Type ℓ} → Option A → Bool
is_absent none = true
is_absent (some _) = false

-- The first loop, over the sorted needs.
unfoldable pub aggregate :
    EconomyModel → List Need → Dict NeedKey Decimal → Sim (Dict NeedKey Decimal)
unfolding is_absent
aggregate m [] totals = ok totals
aggregate m (need ∷ needs) totals = do
  raise_if (lt_dec need.requested_quantity zero_dec) negative_request
  raise_if
      (is_absent (lookup need.site_id (sites_of m))
        || is_absent (lookup need.commodity_id (commodities_of m)))
      unknown_site
  totals ← credit (need.priority, (need.site_id, need.commodity_id)) need.requested_quantity totals
  aggregate m needs totals

-- `if actual: flows.append(...)`
abbrev flow_if : NeedKey → Decimal → Books → Books
flow_if (priority, (site, commodity)) actual b =
    if is_zero actual
    then b
    else record_flow
        (record {
          kind = consumption;
          site_id = site;
          commodity_id = commodity;
          quantity = actual;
          reference_id = codes "need:" ++ int_text priority;
        })
        b

-- `prices.get(key, base_price)`
abbrev price_or : Option Decimal → Option Decimal → Option Decimal
price_or none base = base
price_or (some p) base = some p

-- `prices[key] = _price_after_need(...)`
set_price : Commodity → StockKey → Decimal → Decimal → Books → Sim Books
set_price c key requested actual b = do
  free ← free_stock key b
  price ← price_after_need c requested actual free (price_or (lookup key b.prices) c.base_price)
  ok (record b { prices = insert key price b.prices })

-- The price of a consumed commodity.
respond : Option Commodity → StockKey → Decimal → Decimal → Books → Sim Books
unfolding set_price
respond none key requested actual b = err unknown_commodity
respond (some c) key requested actual b =
    if c.market_price_enabled then set_price c key requested actual b else ok b

abbrev add_need_result : NeedKey → Decimal → Decimal → Books → Books
add_need_result key requested actual b = record b {
  need_results =
      b.need_results
      ++ (record {
        site_id = key.1.0;
        commodity_id = key.1.1;
        requested_quantity = requested;
        consumed_quantity = actual;
      }
          ∷ []);
}

-- The consumption of `actual`, its flow, its result and the price.
book_consumption : EconomyModel → NeedKey → Decimal → Decimal → Books → Sim Books
unfolding respond
book_consumption m key requested actual b = do
  b ← debit_stock key.1 actual b
  totals ← credit key.1.1 actual b.consumed
  let b = flow_if key actual (record b { consumed = totals })
  respond (lookup key.1.1 (commodities_of m)) key.1 requested actual
      (add_need_result key requested actual b)

-- The body of the second loop.
unfoldable pub consume : EconomyModel → NeedKey → Decimal → Books → Sim Books
unfolding book_consumption
consume m key requested b = if is_zero requested then ok b else do
  available ← free_stock key.1 b
  book_consumption m key requested (min_dec requested available) b

unfoldable pub consume_each : EconomyModel → List (NeedKey × Decimal) → Books → Sim Books
unfolding consume
consume_each m [] b = ok b
consume_each m ((key, requested) ∷ totals) b = do
  b ← consume m key requested b
  consume_each m totals b

-- Both loops.
unfoldable pub need_phase : EconomyModel → List Need → Books → Sim Books
unfolding aggregate consume_each
need_phase m needs b = do
  totals ← aggregate m (sorted compare_need needs) []
  consume_each m (sorted compare_total totals) b
