-- ===== src/Stockflow/Shipments/Phase.antt =====
-- stockflow.py: what holds over the whole shipment loop.
use mathlib.Core.List.{Perm, append_assoc, append-nil}
use baen_economy_engine.Prelude.{
  ℕ, ◌≡◌, refl, ap, ◌∙◌, sym, subst, arith, false, not, ◌||◌, Option, none, some, String, List, [],
  ◌∷◌, ◌++◌, ok, >>=-eq-ok, ok-inj, raise_if-ok, All, All-snoc, str_eq,
}
use baen_economy_engine.Prelude.Dict.{lookup, contains, string_eq}
use baen_economy_engine.Decimal.Number.{zero_dec, lt_dec}
use baen_economy_engine.Decimal.Order.{Le}
use baen_economy_engine.Stockflow.Types.{
  negative_request, duplicate_shipment, route_mismatch, Route, EconomyModel, ShipmentOrder,
  ShipmentResult,
}
use baen_economy_engine.Stockflow.Sorting.{sorted, sorted-Perm}
use baen_economy_engine.Stockflow.Books.{Books, routes_of, commodities_of}
use baen_economy_engine.Stockflow.Shipments.{
  compare_shipment, check_commodity, ship_known, ship, ship_each, shipment_phase,
}
use baen_economy_engine.Stockflow.Shipments.Bounds.{result_of, dispatch_on-IsWithin}

-- No id twice, and none of those that are given.
abbrev pub IsFreshAll : List String → List String → Type 0
IsFreshAll applied [] = Unit
IsFreshAll applied (id ∷ ids) =
    (contains id ids ≡ false) × (contains id applied ≡ false) × IsFreshAll applied ids

-- A result that sends from nothing up to what its order requests.
abbrev pub IsServed : ShipmentResult → Type 0
IsServed r = Le zero_dec r.dispatched_quantity × Le r.dispatched_quantity r.requested_quantity

abbrev pub IsShipped : List String → Books → Type 0
IsShipped applied b = IsFreshAll applied b.shipment_ids × All IsServed b.shipment_results

-- The ids of these orders, recorded one after the other before those that were recorded earlier.
abbrev pub recorded : List ShipmentOrder → List String → List String
recorded [] ids = ids
recorded (order ∷ orders) ids = recorded orders (order.shipment_id ∷ ids)

-- Each order has one result, under its id and with its request, in their order.
abbrev pub AreAnswered : List ShipmentOrder → List ShipmentResult → Type 0
AreAnswered [] [] = Unit
AreAnswered (order ∷ orders) (r ∷ rs) =
    (r.shipment_id ≡ order.shipment_id)
    × (r.requested_quantity ≡ order.requested_quantity)
    × AreAnswered orders rs
AreAnswered _ _ = ⊥

-- What orders that are shipped one after the other do to the books.
abbrev pub Ships : List ShipmentOrder → Books → Books → Type 0
Ships orders b b' =
    (b'.shipment_ids ≡ recorded orders b.shipment_ids)
    × ((answers : List ShipmentResult) × (b'.shipment_results ≡ b.shipment_results ++ answers)
        × AreAnswered orders answers)

ship_known_lem :
    (m : EconomyModel) (period : ℕ) (route : Option Route) (order : ShipmentOrder) (b b' : Books)
    → lt_dec order.requested_quantity zero_dec ≡ false
    → ship_known m period route order b ≡ ok b'
    → (r : ShipmentResult) × IsServed r
      × (b'.shipment_ids ≡ b.shipment_ids)
      × (b'.shipment_results ≡ b.shipment_results ++ (r ∷ []))
      × AreAnswered (order ∷ []) (r ∷ [])
unfolding ship_known
ship_known_lem m period none order b b' nonneg h = cc
ship_known_lem m period (some route) order b b' nonneg h =
    let (_, _, h1) =
      >>=-eq-ok (check_commodity (lookup order.commodity_id (commodities_of m))) _ h in
    let (_, h2) =
      raise_if-ok (not (str_eq order.commodity_id route.commodity_id)) route_mismatch _ h1 in
    let (_, _, q, _, _, within, results, ids) =
      dispatch_on-IsWithin period route order b b' nonneg h2 in
    (result_of order q, (within.0, within.1), ids, results, (refl, refl, tt))

ship_lem :
    (m : EconomyModel) (period : ℕ) (applied : List String) (order : ShipmentOrder) (b b' : Books)
    → IsShipped applied b
    → ship m period applied order b ≡ ok b'
    → IsShipped applied b' × Ships (order ∷ []) b b'
unfolding ship
ship_lem m period applied order b b' valid h =
    let (nonneg, h1) =
      raise_if-ok (lt_dec order.requested_quantity zero_dec) negative_request _ h in
    let (fresh, h2) =
      raise_if-ok (contains order.shipment_id b.shipment_ids || contains order.shipment_id applied)
        duplicate_shipment _ h1 in
    let (r, served, ids, results, answered) =
      ship_known_lem m period (lookup order.route_id (routes_of m)) order _ b' nonneg h2 in
    let new : IsFreshAll applied (order.shipment_id ∷ b.shipment_ids) =
      (ground arith, ground arith, valid.0) in
    (
      (
        subst (IsFreshAll applied) (sym ids) new,
        subst (All IsServed) (sym results) (All-snoc IsServed b.shipment_results r valid.1 served),
      ),
      (ids, (r ∷ [], results, answered)),
    )

answered_both :
    (order : ShipmentOrder) (orders : List ShipmentOrder) (xs ys zs : List ShipmentResult)
    → ((a : List ShipmentResult) × (ys ≡ xs ++ a) × AreAnswered (order ∷ []) a)
    → ((a : List ShipmentResult) × (zs ≡ ys ++ a) × AreAnswered orders a)
    → (a : List ShipmentResult) × (zs ≡ xs ++ a) × AreAnswered (order ∷ orders) a
answered_both order orders xs ys zs ([], e, none_left) rest = absurd none_left
answered_both order orders xs ys zs (r ∷ [], e, one) (rs, e', others) =
    (r ∷ rs, e' ∙ ap (λ ws. ws ++ rs) e ∙ append_assoc xs (r ∷ []) rs, (one.0, one.1, others))
answered_both order orders xs ys zs (r ∷ (r' ∷ rs'), e, one) rest = absurd one.2

ship_each_lem :
    (m : EconomyModel) (period : ℕ) (applied : List String) (orders : List ShipmentOrder)
    (b b' : Books)
    → IsShipped applied b
    → ship_each m period applied orders b ≡ ok b'
    → IsShipped applied b' × Ships orders b b'
unfolding ship_each
ship_each_lem m period applied [] b b' valid h =
    subst (λ (x : Books). IsShipped applied x × Ships [] b x) (ok-inj h)
      (valid, (refl, ([], sym (append-nil b.shipment_results), tt)))
ship_each_lem m period applied (order ∷ orders) b b' valid h =
    let (b1, h1, h2) = >>=-eq-ok (ship m period applied order b) _ h in
    let (valid1, (ids1, first)) = ship_lem m period applied order b b1 valid h1 in
    let (valid2, (ids2, rest)) = ship_each_lem m period applied orders b1 b' valid1 h2 in
    (
      valid2,
      (
        ids2 ∙ ap (recorded orders) ids1,
        answered_both order orders b.shipment_results b1.shipment_results b'.shipment_results first
            rest,
      ),
    )

-- From books in which no shipment id stands twice or among those applied before, and each shipment
-- result sends from zero up to its request, a shipment loop that succeeds leads to such books again.
-- It takes all the orders, in some order, and records the id of every one of them beside those that
-- were recorded before, so that the orders' ids differ from each other, from these and from those that
-- were applied; and it adds one result for each order, with its id and its request.
pub shipment_phase-IsShipped :
    (m : EconomyModel) (period : ℕ) (applied : List String) (orders : List ShipmentOrder)
    (b b' : Books)
    → IsShipped applied b
    → shipment_phase m period applied orders b ≡ ok b'
    → IsShipped applied b' × ((queue : List ShipmentOrder) × Perm queue orders × Ships queue b b')
unfolding shipment_phase
shipment_phase-IsShipped m period applied orders b b' valid h =
    let (shipped, ships) =
      ship_each_lem m period applied (sorted compare_shipment orders) b b' valid h in
    (shipped, (sorted compare_shipment orders, sorted-Perm compare_shipment orders, ships))
