-- ===== src/Domain/Examples.antt =====
-- domain.py: assignments of two entities and of one entity in two periods.
use baen_economy_engine.Prelude.{◌≡◌, ◌↔◌, List, [], ◌∷◌, ok, none, some}
use baen_economy_engine.Prelude.Int.{pos}
use baen_economy_engine.Domain.Labels.{SimulationMode, TemporalState, AccountingTreatment}
use baen_economy_engine.Domain.Assignments.{
  SimulationAssignment, validate_unique_assignments, IsUnique, validate_unique_assignments_iff,
}
use baen_economy_engine.Domain.Eligibility.{EntityRecord}

abbrev first : SimulationAssignment
first = record {
  entity_id = "mill";
  timeline_id = "actual";
  period_index = 1;
  mode = SimulationMode.stock_flow;
  source_ref = "r1";
}

abbrev assignments : List SimulationAssignment
assignments = first ∷ record first { period_index = 2 } ∷ record first { entity_id = "farm" } ∷ []

validate_unique_assignments_iff_example :
    (validate_unique_assignments assignments ≡ ok tt) ↔ IsUnique assignments
validate_unique_assignments_iff_example = validate_unique_assignments_iff assignments

abbrev mill : EntityRecord
mill = record {
  entity_id = "mill";
  name = "Mill";
  source_ref = "r1";
  source_record_id = none;
  timeline_id = some "actual";
  effective_ordinal = some (pos 100);
  temporal_state = TemporalState.current;
  treatment = AccountingTreatment.operating_unit;
  parent_name = none;
  status = none;
  sector = none;
  city = none;
  monthly_revenue = none;
  monthly_cost = none;
  capital_invested = none;
  profit_margin = none;
  date_operational_text = none;
  source_last_updated_text = none;
  as_of_campaign_date = none;
  classification_authority_ref = some "ruling";
  classification_rationale = some "operates";
}
