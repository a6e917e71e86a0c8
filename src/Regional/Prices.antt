-- ===== src/Regional/Prices.antt =====
-- regional_market.py: prices at a site, and what a demand or a route makes of them.
use baen_economy_engine.Prelude.{
  Bool, true, false, ◌&&◌, Option, none, some, String, List, [], ◌∷◌, str_eq, if◌then◌else◌, ok,
  err, ◌>>=◌,
}
use baen_economy_engine.Decimal.Number.{Decimal, one_dec, le_dec}
use baen_economy_engine.Decimal.Context.{add, sub, divide}
use baen_economy_engine.Stockflow.Types.{Commodity, Route, PricePosition, Snapshot, EconomyModel}
use baen_economy_engine.Regional.Types.{Regional, unknown_commodity, untracked_price, calculated}
use baen_economy_engine.Regional.Transport.{RouteCostTerms}
use baen_economy_engine.Regional.Bids.{DemandBid}

-- `_commodity`
commodity_in : String → List Commodity → Regional Commodity
commodity_in id [] = err unknown_commodity
commodity_in id (c ∷ cs) =
    let rest = commodity_in id cs in if str_eq c.commodity_id id then ok c else rest

-- The first price of the site and the commodity.
price_in : String → String → List PricePosition → Option Decimal
price_in site commodity [] = none
price_in site commodity (p ∷ ps) =
    let rest = price_in site commodity ps in
    if str_eq p.site_id site && str_eq p.commodity_id commodity then some p.amount else rest

base_price_of : Bool → Option Decimal → Regional Decimal
base_price_of true (some price) = ok price
base_price_of true none = err untracked_price
base_price_of false _ = err untracked_price

-- The price that is held, or the commodity's base price.
price_or_base : EconomyModel → String → Option Decimal → Regional Decimal
unfolding commodity_in base_price_of
price_or_base m commodity (some price) = ok price
price_or_base m commodity none = do
  c ← commodity_in commodity m.commodities
  base_price_of c.market_price_enabled c.base_price

-- `_price`
unfoldable pub price_at : EconomyModel → Snapshot → String → String → Regional Decimal
unfolding price_or_base price_in
price_at m s site commodity = price_or_base m commodity (price_in site commodity s.prices)

admitted_at : Option Decimal → Regional Decimal → Regional Bool
admitted_at none price = ok true
admitted_at (some reservation) price = do p ← price; ok (le_dec p reservation)

-- `_demand_is_admitted`
unfoldable pub demand_is_admitted : EconomyModel → Snapshot → DemandBid → Regional Bool
unfolding admitted_at
demand_is_admitted m opening d =
    admitted_at d.reservation_price_gp_per_delivered_unit
      (price_at m opening d.site_id d.commodity_id)

-- `_landed_price`
unfoldable pub landed_price : EconomyModel → Snapshot → Route → RouteCostTerms → Regional Decimal
landed_price m opening route terms = do
  price ← price_at m opening route.origin_site_id route.commodity_id
  cost ← calculated (add price terms.transport_cost_gp_per_dispatched_unit)
  survival ← calculated (sub one_dec route.loss_rate)
  calculated (divide cost survival)
