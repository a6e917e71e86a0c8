-- ===== src/Stockflow/Authority/Plan/Examples.antt =====
-- stockflow.py: a plan of the actual timeline with one production order and its event.
use mathlib.Core.Bool.{decide}
use baen_economy_engine.Prelude.{
  ◌≡◌, refl, true, none, some, String, List, [], ◌∷◌, ok, ℕ_discrete, All,
}
use baen_economy_engine.Prelude.Int.{pos}
use baen_economy_engine.Prelude.Dict.{contains, lookup, insert, string_eq}
use baen_economy_engine.Prelude.Text.{has_text}
use baen_economy_engine.Json.{Value, canonical_json}
use baen_economy_engine.Decimal.Number.{whole}
use baen_economy_engine.Decimal.Text.{canonical_decimal}
use baen_economy_engine.Domain.Labels.{Authority, TemporalState, SimulationMode}
use baen_economy_engine.Domain.Assignments.{validate_unique_assignments}
use baen_economy_engine.Events.Types.{
  Primitives, ResolutionStatus, EventEnvelope, may_mutate_actual,
}
use baen_economy_engine.Events.Envelope.{envelope_of, codes_eq}
use baen_economy_engine.Events.Store.{
  EventStore, empty_store, store_with, contains_active, contains_exact, EventEnvelope-discrete,
}
use baen_economy_engine.Stockflow.Types.{RunPlan, Snapshot}
use baen_economy_engine.Stockflow.Books.{index_by}
use baen_economy_engine.Stockflow.Authority.{events_of, require_event_payload, authorize}
use baen_economy_engine.Stockflow.Authority.Plan.{
  production_payload, authorize_all, same_ids, event_ids, validate_actual_plan,
}
use baen_economy_engine.Stockflow.Authority.Plan.Uses.{mutations_of, Uses}
use baen_economy_engine.Stockflow.Authority.Plan.Bijection.{
  IsActiveAuthority, validate_actual_plan-Uses,
}
use baen_economy_engine.Stockflow.Fixture.{economy, opening, plan}

abbrev batch_payload : Value
unfolding production_payload
batch_payload =
    production_payload
      (record { recipe_id = "mill"; requested_batches = whole 2; authorizing_event_id = none })

-- Stand-ins of the standard library's functions.
abbrev prims : Primitives
prims = record { sha256 = λ cs. "h"; uuid5 = λ cs. "u"; loads = λ cs. some batch_payload }

abbrev event : EventEnvelope
event = envelope_of prims (record {
  source_event_key = "k";
  event_revision = 1;
  timeline_id = "actual";
  model_version = "m1";
  campaign_date = record {
    ordinal = pos 130;
    label = "Kythorn 1372";
    year_dr = none;
    month_code = none;
    day = none;
    precision = "month";
  };
  phase = "production";
  sequence = 0;
  authority = Authority.user_ruling;
  temporal_state = TemporalState.current;
  resolution_status = ResolutionStatus.resolved;
  source_ref = "r";
  event_type = "stock.production";
  payload = batch_payload;
  subject_entity_id = some "miller";
  subject_site_id = some "farm";
  reverses_event_id = none;
})

abbrev store : EventStore
store = store_with empty_store event

abbrev parent : Snapshot
parent = record opening { timeline_id = "actual" }

abbrev actual_plan : RunPlan
actual_plan = record plan {
  production_orders =
      record {
        recipe_id = "mill";
        requested_batches = whole 2;
        authorizing_event_id = some "event:u";
      }
      ∷ [];
  shipment_orders = [];
  needs = [];
  authorizing_events = event ∷ [];
  simulation_assignments =
      record {
        entity_id = "miller";
        timeline_id = "actual";
        period_index = 1;
        mode = SimulationMode.stock_flow;
        source_ref = "ruling";
      }
      ∷ [];
}

accepted : validate_actual_plan prims economy parent actual_plan (some store) ≡ ok tt
unfolding validate_actual_plan production_payload contains lookup insert has_text canonical_json
    canonical_decimal validate_unique_assignments may_mutate_actual envelope_of codes_eq store_with
    contains_active contains_exact EventEnvelope-discrete index_by require_event_payload authorize
    authorize_all same_ids decide ℕ_discrete
accepted = refl

validate_actual_plan-Uses_example :
    (s : EventStore) × (used : List String) × (some store ≡ some s)
    × All (IsActiveAuthority s) (events_of actual_plan)
    × Uses (events_of actual_plan) (mutations_of actual_plan) [] used
    × All (λ id. contains id used ≡ true) (event_ids (events_of actual_plan))
validate_actual_plan-Uses_example =
    validate_actual_plan-Uses prims economy parent actual_plan (some store) accepted
