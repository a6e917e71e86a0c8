-- ===== src/Stockflow/Authority/Plan/Bijection.antt =====
-- stockflow.py: the mutations of an actual plan and its events stand one to one.
use baen_economy_engine.Prelude.{
  ◌≡◌, refl, arith, true, not, Option, none, some, String, List, [], ◌∷◌, ◌++◌, ok, raise_if,
  >>=-eq-ok, ok-inj, raise_if-ok, All, all,
}
use baen_economy_engine.Prelude.Dict.{Dict, contains, lookup, string_eq}
use baen_economy_engine.Domain.Labels.{SimulationMode}
use baen_economy_engine.Domain.Assignments.{validate_unique_assignments}
use baen_economy_engine.Events.Types.{Primitives, EventEnvelope, may_mutate_actual}
use baen_economy_engine.Events.Store.{EventStore, contains_active}
use baen_economy_engine.Stockflow.Types.{
  Sim, unauthorised, Recipe, Route, ProductionOrder, ShipmentOrder, Need, RunPlan, Snapshot,
  EconomyModel,
}
use baen_economy_engine.Stockflow.Books.{recipes_of, routes_of}
use baen_economy_engine.Stockflow.Authority.{
  events_of, check_event, check_events, of_assignment, assignments_from, authorize,
}
use baen_economy_engine.Stockflow.Authority.Plan.{
  production_payload, shipment_payload, need_payload, production_demand, shipment_demand,
  need_demand, authorize_recipe, authorize_production, authorize_route, authorize_shipments,
  authorize_needs, authorize_all, check_parent_refs, event_ids, same_ids, with_store,
  validate_actual_plan,
}
use baen_economy_engine.Stockflow.Authority.Plan.Uses.{
  production_mutations, shipment_mutations, need_mutations, mutations_of, Uses, Uses-append,
  authorize-Uses,
}

module _ (prims : Primitives) (events : Dict String EventEnvelope)
    (assignments : Dict String SimulationMode) where
  authorize_recipe-Uses :
      (r : Option Recipe) (o : ProductionOrder) (orders : List ProductionOrder)
      (used next used' : List String)
      → authorize_recipe prims events assignments r o used ≡ ok next
      → Uses events (production_mutations orders) next used'
      → Uses events (production_mutations (o ∷ orders)) used used'
  unfolding authorize_recipe production_mutations
  authorize_recipe-Uses none o orders used next used' h k = cc
  authorize_recipe-Uses (some r) o orders used next used' h k =
      authorize-Uses prims events assignments (production_demand r o) (production_payload o)
        (production_mutations orders) used next used' h k

  authorize_production-Uses :
      (recipes : Dict String Recipe) (orders : List ProductionOrder) (used used' : List String)
      → authorize_production prims events assignments recipes orders used ≡ ok used'
      → Uses events (production_mutations orders) used used'
  unfolding authorize_production production_mutations
  authorize_production-Uses recipes [] used used' h = ok-inj h
  authorize_production-Uses recipes (o ∷ orders) used used' h =
      let (next, h1, h2) =
        >>=-eq-ok (authorize_recipe prims events assignments (lookup o.recipe_id recipes) o used) _
          h in
      authorize_recipe-Uses (lookup o.recipe_id recipes) o orders used next used' h1
        (authorize_production-Uses recipes orders next used' h2)

  authorize_route-Uses :
      (r : Option Route) (o : ShipmentOrder) (orders : List ShipmentOrder)
      (used next used' : List String)
      → authorize_route prims events assignments r o used ≡ ok next
      → Uses events (shipment_mutations orders) next used'
      → Uses events (shipment_mutations (o ∷ orders)) used used'
  unfolding authorize_route shipment_mutations
  authorize_route-Uses none o orders used next used' h k = cc
  authorize_route-Uses (some r) o orders used next used' h k =
      authorize-Uses prims events assignments (shipment_demand r o) (shipment_payload o)
        (shipment_mutations orders) used next used' h k

  authorize_shipments-Uses :
      (routes : Dict String Route) (orders : List ShipmentOrder) (used used' : List String)
      → authorize_shipments prims events assignments routes orders used ≡ ok used'
      → Uses events (shipment_mutations orders) used used'
  unfolding authorize_shipments shipment_mutations
  authorize_shipments-Uses routes [] used used' h = ok-inj h
  authorize_shipments-Uses routes (o ∷ orders) used used' h =
      let (next, h1, h2) =
        >>=-eq-ok (authorize_route prims events assignments (lookup o.route_id routes) o used) _
          h in
      authorize_route-Uses (lookup o.route_id routes) o orders used next used' h1
        (authorize_shipments-Uses routes orders next used' h2)

  authorize_needs-Uses :
      (needs : List Need) (used used' : List String)
      → authorize_needs prims events assignments needs used ≡ ok used'
      → Uses events (need_mutations needs) used used'
  unfolding authorize_needs need_mutations
  authorize_needs-Uses [] used used' h = ok-inj h
  authorize_needs-Uses (n ∷ needs) used used' h =
      let (next, h1, h2) =
        >>=-eq-ok (authorize prims events assignments (need_demand n) (need_payload n) used) _ h in
      authorize-Uses prims events assignments (need_demand n) (need_payload n)
        (need_mutations needs) used next used' h1 (authorize_needs-Uses needs next used' h2)

  authorize_all-Uses :
      (m : EconomyModel) (p : RunPlan) (used : List String)
      → authorize_all prims events assignments m p ≡ ok used
      → Uses events (mutations_of p) [] used
  unfolding authorize_all mutations_of
  authorize_all-Uses m p used h =
      let (made, h1, h2) =
        >>=-eq-ok
          (authorize_production prims events assignments (recipes_of m) p.production_orders []) _
          h in
      let (shipped, h3, h4) =
        >>=-eq-ok
          (authorize_shipments prims events assignments (routes_of m) p.shipment_orders made) _
          h2 in
      Uses-append events (production_mutations p.production_orders)
        (shipment_mutations p.shipment_orders ++ need_mutations p.needs) [] made used
        (authorize_production-Uses (recipes_of m) p.production_orders [] made h1)
        (Uses-append events (shipment_mutations p.shipment_orders) (need_mutations p.needs) made
          shipped used (authorize_shipments-Uses (routes_of m) p.shipment_orders made shipped h3)
          (authorize_needs-Uses p.needs shipped used h4))

-- An event that the store holds as the current version, and that may change the actual history.
abbrev pub IsActiveAuthority : EventStore → String × EventEnvelope → Type 0
IsActiveAuthority store (id, e) = (contains_active store e ≡ true) × (may_mutate_actual e ≡ true)

check_events-IsActive :
    (m : EconomyModel) (p : RunPlan) (store : EventStore) (events : Dict String EventEnvelope)
    → check_events m p store events ≡ ok tt
    → All (IsActiveAuthority store) events
unfolding check_events check_event
check_events-IsActive m p store [] h = tt
check_events-IsActive m p store ((id, e) ∷ events) h =
    let (_, h1, h2) = >>=-eq-ok (check_event m p store e) _ h in
    let (active, h3) = raise_if-ok (not (contains_active store e)) unauthorised _ h1 in
    let (mutates, _) = raise_if-ok (not (may_mutate_actual e)) unauthorised _ h3 in
    ((ground (arith, active), ground (arith, mutates)), check_events-IsActive m p store events h2)

all-All :
    (ids used : List String)
    → all (λ id. contains id used) ids ≡ true
    → All (λ id. contains id used ≡ true) ids
all-All [] used h = tt
all-All (id ∷ ids) used h = (ground arith, all-All ids used (ground arith))

same_ids-All :
    (ids used : List String)
    → Path (Sim (Unit {0})) (raise_if (not (same_ids ids used)) unauthorised) (ok tt)
    → All (λ id. contains id used ≡ true) ids
unfolding same_ids
same_ids-All ids used h = all-All ids used (ground arith)

-- An accepted plan of the actual timeline comes with a store, and its events are active there and may
-- change the actual history. Each production order, shipment and need names an event of the plan
-- with the phase and the exact payload of that mutation; no event serves two of them, and every event
-- of the plan serves one.
pub validate_actual_plan-Uses :
    (prims : Primitives) (m : EconomyModel) (parent : Snapshot) (p : RunPlan)
    (store : Option EventStore)
    → validate_actual_plan prims m parent p store ≡ ok tt
    → (s : EventStore) × (used : List String) × (store ≡ some s)
      × All (IsActiveAuthority s) (events_of p)
      × Uses (events_of p) (mutations_of p) [] used
      × All (λ id. contains id used ≡ true) (event_ids (events_of p))
unfolding validate_actual_plan with_store
validate_actual_plan-Uses prims m parent p none h = cc
validate_actual_plan-Uses prims m parent p (some s) h =
    let (_, _, h1) = >>=-eq-ok (check_parent_refs prims s parent.applied_event_refs) _ h in
    let (_, events, h2) = >>=-eq-ok (check_events m p s (events_of p)) _ h1 in
    let (_, _, h3) =
      >>=-eq-ok (of_assignment (validate_unique_assignments p.simulation_assignments)) _ h2 in
    let (assignments, _, h4) =
      >>=-eq-ok (assignments_from parent p p.simulation_assignments []) _ h3 in
    let (used, uses, h5) = >>=-eq-ok (authorize_all prims (events_of p) assignments m p) _ h4 in
    (
      s,
      used,
      refl,
      check_events-IsActive m p s (events_of p) events,
      authorize_all-Uses prims (events_of p) assignments m p used uses,
      same_ids-All (event_ids (events_of p)) used h5,
    )
