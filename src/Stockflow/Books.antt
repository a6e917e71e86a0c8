-- ===== src/Stockflow/Books.antt =====
-- stockflow.py: the local variables of `_advance`. A `defaultdict(Decimal)` is a dictionary that is
-- read as zero where it has no entry; the entry that Python adds on such a read is a zero, which
-- neither the closing checks nor the closing inventory distinguish from none.
use baen_economy_engine.Prelude.{
  ◌≡◌, sym, Option, none, some, String, List, [], ◌∷◌, ◌++◌, Result, ok, err, ◌>>=◌, >>=-eq-ok,
  ok-inj,
}
use baen_economy_engine.Prelude.Dict.{Dict, Eq, lookup, insert, string_eq, pair_eq}
use baen_economy_engine.Decimal.Number.{Decimal, zero_dec}
use baen_economy_engine.Decimal.Context.{DecimalError, add, sub}
use baen_economy_engine.Stockflow.Types.{
  Sim, calc, MaterialFlow, TransitLot, ProductionResult, ShipmentResult, NeedResult, Commodity,
  Site, Recipe, Route, EconomyModel, Snapshot, InventoryPosition, PricePosition,
}

-- (site, commodity)
abbrev pub StockKey : Type 0
StockKey = String × String

pub record Books : Type 0 where
  pub inventory : Dict StockKey Decimal
  pub reserved : Dict StockKey Decimal
  pub prices : Dict StockKey Decimal
  pub labor_remaining : Dict String Decimal
  pub labor_used : Dict String Decimal
  pub flows : List MaterialFlow
  pub transit : List TransitLot
  pub losses : Dict String Decimal
  pub recipe_batches_used : Dict String Decimal
  pub produced : Dict String Decimal
  pub recipe_inputs : Dict String Decimal
  pub production_results : List ProductionResult
  pub route_used : Dict String Decimal
  pub shipment_results : List ShipmentResult
  pub shipment_ids : List String
  pub need_results : List NeedResult
  pub consumed : Dict String Decimal

-- `d[key]` of a `defaultdict(Decimal)`
abbrev pub or_zero : Option Decimal → Decimal
or_zero none = zero_dec
or_zero (some v) = v

module _ {ℓ} {K : Type ℓ} ⦃e : Eq K⦄ where
  unfoldable pub amount : K → Dict K Decimal → Decimal
  amount k d = or_zero (lookup k d)

  -- `d[key] += quantity`
  unfoldable pub credit : K → Decimal → Dict K Decimal → Sim (Dict K Decimal)
  unfolding amount
  credit k q d = do v ← calc (add (amount k d) q); ok (insert k v d)

  -- `d[key] -= quantity`
  unfoldable pub debit : K → Decimal → Dict K Decimal → Sim (Dict K Decimal)
  unfolding amount
  debit k q d = do v ← calc (sub (amount k d) q); ok (insert k v d)

pub calc-ok {ℓ} : {A : Type ℓ} (r : Result DecimalError A) {a : A} → calc r ≡ ok a → r ≡ ok a
calc-ok (ok a) h = cc
calc-ok (err e) h = cc

module _ {ℓ} {K : Type ℓ} ⦃e : Eq K⦄ (key : K) (q : Decimal) (d d' : Dict K Decimal) where
  pub credit-insert :
      credit key q d ≡ ok d'
      → (total : Decimal) × (add (amount key d) q ≡ ok total) × (d' ≡ insert key total d)
  unfolding credit
  credit-insert h =
      let (total, e, h1) = >>=-eq-ok (calc (add (amount key d) q)) _ h in
      (total, calc-ok _ e, sym (ok-inj h1))

  pub debit-insert :
      debit key q d ≡ ok d'
      → (left : Decimal) × (sub (amount key d) q ≡ ok left) × (d' ≡ insert key left d)
  unfolding debit
  debit-insert h =
      let (left, e, h1) = >>=-eq-ok (calc (sub (amount key d) q)) _ h in
      (left, calc-ok _ e, sym (ok-inj h1))

-- `inventory[key] - reserved[key]`
unfoldable pub free_stock : StockKey → Books → Sim Decimal
unfolding amount
free_stock key b = calc (sub (amount key b.inventory) (amount key b.reserved))

abbrev pub credit_stock : StockKey → Decimal → Books → Sim Books
credit_stock key q b = do d ← credit key q b.inventory; ok (record b { inventory = d })

abbrev pub debit_stock : StockKey → Decimal → Books → Sim Books
debit_stock key q b = do d ← debit key q b.inventory; ok (record b { inventory = d })

-- `flows.append(flow)`
abbrev pub record_flow : MaterialFlow → Books → Books
record_flow f b = record b { flows = b.flows ++ (f ∷ []) }

module _ {ℓ} {A : Type ℓ} (key : A → String) where
  -- `{item.id: item for item in items}`
  unfoldable pub index_by : List A → Dict String A → Dict String A
  index_by [] d = d
  index_by (x ∷ xs) d = index_by xs (insert (key x) x d)

-- The dictionaries of the model's records.
abbrev pub commodities_of : EconomyModel → Dict String Commodity
commodities_of m = index_by (λ (c : Commodity). c.commodity_id) m.commodities []

abbrev pub sites_of : EconomyModel → Dict String Site
sites_of m = index_by (λ (s : Site). s.site_id) m.sites []

abbrev pub recipes_of : EconomyModel → Dict String Recipe
recipes_of m = index_by (λ (r : Recipe). r.recipe_id) m.recipes []

abbrev pub routes_of : EconomyModel → Dict String Route
routes_of m = index_by (λ (r : Route). r.route_id) m.routes []

stock_key : InventoryPosition → StockKey
stock_key p = (p.site_id, p.commodity_id)

fill_stock :
    (InventoryPosition → Decimal)
    → List InventoryPosition
    → Dict StockKey Decimal
    → Dict StockKey Decimal
unfolding stock_key
fill_stock f [] d = d
fill_stock f (p ∷ ps) d = fill_stock f ps (insert (stock_key p) (f p) d)

fill_prices : List PricePosition → Dict StockKey Decimal → Dict StockKey Decimal
fill_prices [] d = d
fill_prices (p ∷ ps) d = fill_prices ps (insert (p.site_id, p.commodity_id) p.amount d)

fill_labor : List Site → Dict String Decimal → Dict String Decimal
fill_labor [] d = d
fill_labor (s ∷ ss) d = fill_labor ss (insert s.site_id s.labor_capacity d)

-- The books at the start of a run.
unfoldable pub opening_books : EconomyModel → Snapshot → Books
unfolding fill_stock fill_prices fill_labor
opening_books m parent = record {
  inventory = fill_stock (λ (p : InventoryPosition). p.quantity) parent.inventories [];
  reserved = fill_stock (λ (p : InventoryPosition). p.reserved_quantity) parent.inventories [];
  prices = fill_prices parent.prices [];
  labor_remaining = fill_labor m.sites [];
  labor_used = [];
  flows = [];
  transit = [];
  losses = [];
  recipe_batches_used = [];
  produced = [];
  recipe_inputs = [];
  production_results = [];
  route_used = [];
  shipment_results = [];
  shipment_ids = [];
  need_results = [];
  consumed = [];
}
