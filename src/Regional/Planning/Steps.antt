-- ===== src/Regional/Planning/Steps.antt =====
-- regional_market.py: what the planning of dispatches may do, as steps on what is left of the offers and
-- the routes, whatever the order in which the code tries them.
use mathlib.Core.List.{Memᴰ}
use baen_economy_engine.Prelude.{
  ◌≡◌, sym, subst, false, some, String, List, ◌∷◌, [], ◌++◌, str_eq, if◌then◌else◌, Option, none,
  ok, All, All-snoc, Bool-cases, inl, inr,
}
use baen_economy_engine.Prelude.Dict.{Dict, lookup, string_eq}
use baen_economy_engine.Decimal.Number.{Decimal, zero_dec, is_zero}
use baen_economy_engine.Decimal.Order.{Le}
use baen_economy_engine.Decimal.Context.{sub}
use baen_economy_engine.Decimal.Context.Signs.{sub-nonneg}
use baen_economy_engine.Stockflow.Types.{Route, Snapshot, EconomyModel}
use baen_economy_engine.Regional.Transport.{RouteCostTerms}
use baen_economy_engine.Regional.Bids.{SupplyOffer, DemandBid}
use baen_economy_engine.Regional.Prices.{landed_price}
use baen_economy_engine.Regional.Planning.{PlannedTrade}

-- What is left of each offer and of each route, with no order among the keys, and what is planned.
pub record Market : Type 0 where
  pub left_of : String → Decimal
  pub room_on : String → Decimal
  pub trades : List PlannedTrade

abbrev pub update : String → Decimal → (String → Decimal) → String → Decimal
update key value f other = if str_eq key other then value else f other

update-nonneg :
    (key : String) (value : Decimal) (f : String → Decimal)
    → Le zero_dec value
    → ((other : String) → Le zero_dec (f other))
    → (other : String) → Le zero_dec (update key value f other)
update-nonneg key value f new old other = elim (Bool-cases (str_eq key other)) [
  | inl e ↦ rw e new
  | inr e ↦ rw e (old other)
]

-- The route goes from the offer's site to the demand's with the commodity of both.
abbrev pub Connects : Route → SupplyOffer → DemandBid → Type 0
Connects r o d =
    (r.origin_site_id ≡ o.site_id)
    × (r.destination_site_id ≡ d.site_id)
    × (r.commodity_id ≡ d.commodity_id)
    × (o.commodity_id ≡ d.commodity_id)

-- A price of a delivered unit that is no higher than the buyer's reservation, if there is one.
abbrev pub IsAccepted : Option Decimal → Decimal → Type 0
IsAccepted none landed = Unit
IsAccepted (some reservation) landed = Le landed reservation

abbrev pub Accepts : DemandBid → Decimal → Type 0
Accepts d landed = IsAccepted d.reservation_price_gp_per_delivered_unit landed

module _ (m : EconomyModel) (opening : Snapshot) (terms : Dict String RouteCostTerms)
    (offers : List SupplyOffer) (demands : List DemandBid) where
  -- A dispatch that may be planned, and its price.
  pub record IsOffered (r : Route) (t : PlannedTrade) : Type 0 where
    pub route_known : Memᴰ r m.routes
    pub route_id : t.route_id ≡ r.route_id
    pub offer_known : Memᴰ t.offer offers
    pub demand_known : Memᴰ t.demand demands
    pub connected : Connects r t.offer t.demand
    pub cost : RouteCostTerms
    pub costed : lookup r.route_id terms ≡ some cost
    pub landed : Decimal
    pub landed_lem : landed_price m opening r cost ≡ ok landed
    pub accepted : Accepts t.demand landed

  -- A dispatch above zero, within what is left of the offer, of the route and of its capacity.
  pub record IsWithin (r : Route) (s : Market) (t : PlannedTrade) : Type 0 where
    pub nonneg : Le zero_dec t.dispatched_quantity
    pub nonzero : is_zero t.dispatched_quantity ≡ false
    pub by_offer : Le t.dispatched_quantity (s.left_of t.offer.offer_id)
    pub by_route : Le t.dispatched_quantity (s.room_on r.route_id)
    pub by_capacity : Le t.dispatched_quantity r.capacity_per_period

  -- One dispatch: the offer and the route lose it, all others keep what they have.
  pub data Sends : Market → Market → Type 0 where
    stay : (s : Market) → Sends s s
    send :
        (s before after : Market) (r : Route) (t : PlannedTrade) (budget room : Decimal)
        → Sends s before
        → IsOffered r t
        → IsWithin r before t
        → sub (before.left_of t.offer.offer_id) t.dispatched_quantity ≡ ok budget
        → sub (before.room_on r.route_id) t.dispatched_quantity ≡ ok room
        → after ≡ record {
          left_of = update t.offer.offer_id budget before.left_of;
          room_on = update r.route_id room before.room_on;
          trades = before.trades ++ (t ∷ []);
        }
        → Sends s after

  pub Sends-trans : (a b c : Market) → Sends a b → Sends b c → Sends a c
  Sends-trans a b c first (stay s) = first
  Sends-trans a b c first
        (send s before after r t budget room earlier offered within left place e) =
      send a before after r t budget room (Sends-trans a b before first earlier) offered within left
        place e

  -- Nothing is overdrawn, and what is planned is offered.
  pub record IsSolvent (s : Market) : Type 0 where
    pub budgets : (key : String) → Le zero_dec (s.left_of key)
    pub rooms : (key : String) → Le zero_dec (s.room_on key)
    pub offered : All (λ t. (r : Route) × IsOffered r t) s.trades

  pub Sends-IsSolvent : (s s' : Market) → Sends s s' → IsSolvent s → IsSolvent s'
  Sends-IsSolvent s s' (stay _) i = i
  Sends-IsSolvent s s' (send _ before after r t budget room earlier offered within left place e) i =
      let j = Sends-IsSolvent s before earlier i in
      subst IsSolvent (sym e) (record {
        budgets =
            update-nonneg t.offer.offer_id budget before.left_of
              (sub-nonneg _ t.dispatched_quantity budget within.nonneg within.by_offer left)
              j.budgets;
        rooms =
            update-nonneg r.route_id room before.room_on
              (sub-nonneg _ t.dispatched_quantity room within.nonneg within.by_route place) j.rooms;
        offered =
            All-snoc (λ t. (r : Route) × IsOffered r t) before.trades t j.offered (r, offered);
      })
