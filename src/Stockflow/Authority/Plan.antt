-- ===== src/Stockflow/Authority/Plan.antt =====
-- stockflow.py: the loops of `_validate_actual_plan` over production, shipments and needs.
pub mod Uses
pub mod Bijection
mod Examples
use baen_economy_engine.Prelude.{
  ℕ, Bool, true, false, ◌&&◌, not, Option, none, some, String, List, [], ◌∷◌, ◌++◌, Result, ok, err,
  ◌>>=◌, ◌>>◌, raise_if, all,
}
use baen_economy_engine.Prelude.Int.{ℤ}
use baen_economy_engine.Prelude.Dict.{Dict, contains, lookup, string_eq}
use baen_economy_engine.Json.{Value, int, text, raw, obj, end, field}
use baen_economy_engine.Decimal.Text.{canonical_decimal}
use baen_economy_engine.Domain.Labels.{SimulationMode}
use baen_economy_engine.Domain.Assignments.{validate_unique_assignments}
use baen_economy_engine.Events.Types.{Primitives, EventEnvelope}
use baen_economy_engine.Events.Store.{EventStore, contains_active_ref}
use baen_economy_engine.Stockflow.Types.{
  Sim, checked, SimulationError, unauthorised, unknown_recipe, unknown_route, Recipe, Route,
  ProductionOrder, ShipmentOrder, Need, RunPlan, Snapshot, EconomyModel,
}
use baen_economy_engine.Stockflow.Books.{recipes_of, routes_of}
use baen_economy_engine.Stockflow.Authority.{
  Demand, events_of, check_events, of_assignment, assignments_from, authorize,
}

production_payload : ProductionOrder → Value
production_payload o = obj (
    field "recipe_id" (text o.recipe_id)
      (field "requested_batches" (raw (canonical_decimal o.requested_batches)) end))

shipment_payload : ShipmentOrder → Value
shipment_payload o = obj (
    field "shipment_id" (text o.shipment_id) (
      field "route_id" (text o.route_id) (
        field "commodity_id" (text o.commodity_id)
          (field "requested_quantity" (raw (canonical_decimal o.requested_quantity)) end))))

need_payload : Need → Value
need_payload n = obj (
    field "site_id" (text n.site_id) (
      field "commodity_id" (text n.commodity_id) (
        field "requested_quantity" (raw (canonical_decimal n.requested_quantity))
          (field "priority" (int n.priority) end))))

abbrev production_demand : Recipe → ProductionOrder → Demand
production_demand r o = record {
  event_id = o.authorizing_event_id;
  phase = "production";
  expected_entity_id = some r.entity_id;
  expected_site_id = some r.site_id;
  with_cost_center = false;
}

abbrev shipment_demand : Route → ShipmentOrder → Demand
shipment_demand r o = record {
  event_id = o.authorizing_event_id;
  phase = "shipment";
  expected_entity_id = none;
  expected_site_id = some r.origin_site_id;
  with_cost_center = false;
}

abbrev need_demand : Need → Demand
need_demand n = record {
  event_id = n.authorizing_event_id;
  phase = "consumption";
  expected_entity_id = none;
  expected_site_id = some n.site_id;
  with_cost_center = true;
}

module _ (prims : Primitives) (events : Dict String EventEnvelope)
    (assignments : Dict String SimulationMode) where
  authorize_recipe : Option Recipe → ProductionOrder → List String → Sim (List String)
  unfolding production_payload
  authorize_recipe none o used = err unknown_recipe
  authorize_recipe (some r) o used =
      authorize prims events assignments (production_demand r o) (production_payload o) used

  authorize_production : Dict String Recipe → List ProductionOrder → List String → Sim (List String)
  unfolding authorize_recipe
  authorize_production recipes [] used = ok used
  authorize_production recipes (o ∷ orders) used = do
    used ← authorize_recipe (lookup o.recipe_id recipes) o used
    authorize_production recipes orders used

  authorize_route : Option Route → ShipmentOrder → List String → Sim (List String)
  unfolding shipment_payload
  authorize_route none o used = err unknown_route
  authorize_route (some r) o used =
      authorize prims events assignments (shipment_demand r o) (shipment_payload o) used

  authorize_shipments : Dict String Route → List ShipmentOrder → List String → Sim (List String)
  unfolding authorize_route
  authorize_shipments routes [] used = ok used
  authorize_shipments routes (o ∷ orders) used = do
    used ← authorize_route (lookup o.route_id routes) o used
    authorize_shipments routes orders used

  authorize_needs : List Need → List String → Sim (List String)
  unfolding need_payload
  authorize_needs [] used = ok used
  authorize_needs (n ∷ needs) used = do
    used ← authorize prims events assignments (need_demand n) (need_payload n) used
    authorize_needs needs used

  -- The three loops, one after the other.
  unfoldable pub authorize_all : EconomyModel → RunPlan → Sim (List String)
  unfolding authorize_production authorize_shipments authorize_needs
  authorize_all m p = do
    used ← authorize_production (recipes_of m) p.production_orders []
    used ← authorize_shipments (routes_of m) p.shipment_orders used
    authorize_needs p.needs used

-- The events of the parent are in the store and not reversed.
check_parent_refs : Primitives → EventStore → List (String × String) → Sim (Unit {0})
check_parent_refs prims store [] = ok tt
check_parent_refs prims store ((id, hash) ∷ refs) = do
  active ← checked (contains_active_ref prims store id hash)
  raise_if (not active) unauthorised
  check_parent_refs prims store refs

abbrev pub event_ids : Dict String EventEnvelope → List String
event_ids [] = []
event_ids ((id, e) ∷ events) = id ∷ event_ids events

-- `set(events) == used_events`
unfoldable pub same_ids : List String → List String → Bool
same_ids ids used = all (λ id. contains id used) ids && all (λ id. contains id ids) used

with_store : Primitives → EconomyModel → Snapshot → RunPlan → Option EventStore → Sim (Unit {0})
unfolding check_parent_refs check_events of_assignment assignments_from authorize_all same_ids
with_store prims m parent p none = err unauthorised
with_store prims m parent p (some store) = do
  check_parent_refs prims store parent.applied_event_refs
  check_events m p store (events_of p)
  of_assignment (validate_unique_assignments p.simulation_assignments)
  assignments ← assignments_from parent p p.simulation_assignments []
  used ← authorize_all prims (events_of p) assignments m p
  raise_if (not (same_ids (event_ids (events_of p)) used)) unauthorised

-- `_validate_actual_plan`
unfoldable pub validate_actual_plan :
    Primitives → EconomyModel → Snapshot → RunPlan → Option EventStore → Sim (Unit {0})
unfolding with_store
validate_actual_plan prims m parent p store = with_store prims m parent p store
