-- ===== src/Stockflow/Authority.antt =====
-- stockflow.py: `_validate_actual_plan` and `_require_event_payload`. On the actual timeline every
-- mutation of a plan needs one event of its own, and every event of the plan is needed.
pub mod Plan
use baen_economy_engine.Prelude.{
  ℕ, Bool, true, false, ◌&&◌, ◌||◌, not, Option, none, some, String, List, [], ◌∷◌, ◌++◌, ◌==◌,
  str_eq, Result, ok, err, ◌>>=◌, ◌>>◌, raise_if, if◌then◌else◌, all,
}
use Prim.Native.String.{◌++◌ as append}
use baen_economy_engine.Prelude.Int.{ℤ, pos, eqb_ℤ}
use baen_economy_engine.Prelude.Dict.{Dict, contains, lookup, insert, string_eq}
use baen_economy_engine.Prelude.Text.{has_text}
use baen_economy_engine.Json.{
  Value, null, bool, int, text, raw, arr, obj, end, field, canonical_json,
}
use baen_economy_engine.Decimal.Text.{canonical_decimal}
use baen_economy_engine.Domain.Labels.{SimulationMode, stock_flow, cost_center}
use baen_economy_engine.Domain.Assignments.{
  AssignmentError, SimulationAssignment, validate_unique_assignments,
}
use baen_economy_engine.Events.Types.{Primitives, EventEnvelope, may_mutate_actual}
use baen_economy_engine.Events.Envelope.{codes_eq}
use baen_economy_engine.Events.Store.{EventStore, contains_active, contains_active_ref}
use baen_economy_engine.Stockflow.Types.{
  Sim, checked, SimulationError, unauthorised, unknown_recipe, unknown_route, Recipe, Route,
  ProductionOrder, ShipmentOrder, Need, RunPlan, Snapshot, EconomyModel,
}
use baen_economy_engine.Stockflow.Books.{index_by, recipes_of, routes_of}

-- `{event.event_id: event for event in plan.authorizing_events}`
abbrev pub events_of : RunPlan → Dict String EventEnvelope
events_of p = index_by (λ (e : EventEnvelope). e.event_id) p.authorizing_events []

-- The checks of one event of the plan.
check_event : EconomyModel → RunPlan → EventStore → EventEnvelope → Sim (Unit {0})
check_event m p store e = do
  raise_if (not (contains_active store e)) unauthorised
  raise_if (not (may_mutate_actual e)) unauthorised
  raise_if (not (str_eq e.model_version m.model_version)) unauthorised
  raise_if (not (eqb_ℤ e.campaign_date.ordinal p.campaign_ordinal)) unauthorised
  raise_if (not (str_eq e.campaign_date.label p.campaign_date)) unauthorised

check_events : EconomyModel → RunPlan → EventStore → Dict String EventEnvelope → Sim (Unit {0})
unfolding check_event
check_events m p store [] = ok tt
check_events m p store ((id, e) ∷ events) = do
  check_event m p store e
  check_events m p store events

of_assignment : Result AssignmentError (Unit {0}) → Sim (Unit {0})
of_assignment (ok u) = ok u
of_assignment (err e) = err unauthorised

-- The assignments of the period, by entity.
assignments_from :
    Snapshot
    → RunPlan
    → List SimulationAssignment
    → Dict String SimulationMode
    → Sim (Dict String SimulationMode)
assignments_from parent p [] d = ok d
assignments_from parent p (a ∷ rest) d = do
  raise_if
      (not (str_eq a.timeline_id parent.timeline_id)
        || not (a.period_index == p.period_index)
        || not (has_text a.source_ref))
      unauthorised
  assignments_from parent p rest (insert a.entity_id a.mode d)

-- What `require_authority` is called with.
pub record Demand : Type 0 where
  pub event_id : Option String
  pub phase : String
  pub expected_entity_id : Option String
  pub expected_site_id : Option String
  pub with_cost_center : Bool

-- A string that Python takes for true.
abbrev given : Option String → Option String
given none = none
given (some s) = if str_eq s "" then none else some s

abbrev or_else : Option String → Option String → Option String
or_else none other = other
or_else (some s) other = some s

abbrev equals : Option String → String → Bool
equals none s = false
equals (some t) s = str_eq t s

allows : Bool → Option SimulationMode → Bool
allows with_cost_center none = false
allows with_cost_center (some SimulationMode.stock_flow) = true
allows with_cost_center (some SimulationMode.cost_center) = with_cost_center
allows with_cost_center (some SimulationMode.legacy) = false
allows with_cost_center (some SimulationMode.consolidation_only) = false
allows with_cost_center (some SimulationMode.external) = false

abbrev wrong_site : Option String → Option String → Bool
wrong_site none site = false
wrong_site (some expected) site = not (equals site expected)

-- The subject, and the mode of its assignment.
check_subject : Dict String SimulationMode → Option String → EventEnvelope → Demand → Sim (Unit {0})
unfolding allows
check_subject assignments none e d = err unauthorised
check_subject assignments (some entity) e d = do
  raise_if (not (equals e.subject_entity_id entity)) unauthorised
  raise_if (wrong_site d.expected_site_id e.subject_site_id) unauthorised
  raise_if (not (allows d.with_cost_center (lookup entity assignments))) unauthorised

-- The checks of `require_authority` on the event it finds; the ids used before and after.
authority_of :
    Dict String SimulationMode
    → String
    → Option EventEnvelope
    → Demand
    → List String
    → Sim EventEnvelope
unfolding check_subject
authority_of assignments id none d used = err unauthorised
authority_of assignments id (some e) d used = do
  raise_if (not (str_eq e.phase d.phase)) unauthorised
  raise_if (not (str_eq e.event_type (append "stock." d.phase))) unauthorised
  check_subject assignments (given (or_else (given d.expected_entity_id) e.subject_entity_id)) e d
  raise_if (contains id used) unauthorised
  ok e

abbrev is_object : Option Value → Bool
is_object none = false
is_object (some (obj fs)) = true
is_object (some null) = false
is_object (some (bool b)) = false
is_object (some (int n)) = false
is_object (some (text s)) = false
is_object (some (raw cs)) = false
is_object (some (arr xs)) = false

module _ (prims : Primitives) where
  -- `_require_event_payload`
  unfoldable pub require_event_payload : EventEnvelope → Value → Sim (Unit {0})
  require_event_payload e expected = do
    raise_if (not (is_object (prims.loads e.payload_json))) unauthorised
    raise_if (not (codes_eq e.payload_json (canonical_json expected))) unauthorised

  -- `require_authority`, then the payload; the ids used so far grow by the event's.
  authorize_id :
      Dict String EventEnvelope
      → Dict String SimulationMode
      → Option String
      → Demand
      → Value
      → List String
      → Sim (List String)
  unfolding authority_of require_event_payload
  authorize_id events assignments none d expected used = err unauthorised
  authorize_id events assignments (some id) d expected used = do
    e ← authority_of assignments id (lookup id events) d used
    require_event_payload e expected
    ok (id ∷ used)

  unfoldable pub authorize :
      Dict String EventEnvelope
      → Dict String SimulationMode
      → Demand
      → Value
      → List String
      → Sim (List String)
  unfolding authorize_id
  authorize events assignments d = authorize_id events assignments (given d.event_id) d
