-- ===== src/Stockflow/Advance/Examples.antt =====
-- stockflow.py: a run of the actual timeline with one production order and its event.
use mathlib.Core.Bool.{decide}
use baen_economy_engine.Prelude.{
  ◌≡◌, refl, true, none, some, String, List, [], ◌∷◌, ok, ℕ_discrete, All,
}
use baen_economy_engine.Prelude.Int.{pos}
use baen_economy_engine.Prelude.Dict.{contains, lookup, insert, string_eq}
use baen_economy_engine.Prelude.Text.{has_text, has_control}
use baen_economy_engine.Json.{Value, text, raw, obj, field, end, canonical_json}
use baen_economy_engine.Decimal.Number.{whole, le_dec, lt_dec, eq_dec, is_zero, min_dec, max_dec}
use baen_economy_engine.Decimal.Context.{add, sub, mul, divide, fix, digits, half_even}
use baen_economy_engine.Decimal.Text.{canonical_decimal}
use baen_economy_engine.Domain.Labels.{Authority, TemporalState, SimulationMode}
use baen_economy_engine.Domain.Assignments.{validate_unique_assignments}
use baen_economy_engine.Events.Types.{
  Primitives, ResolutionStatus, EventEnvelope, may_mutate_actual, phase_rank,
}
use baen_economy_engine.Events.Envelope.{envelope_of, codes_eq, validate_integrity, integrity_hash}
use baen_economy_engine.Events.Store.{
  EventStore, empty_store, store_with, contains_active, contains_exact, EventEnvelope-discrete,
}
use baen_economy_engine.Stockflow.Types.{RunPlan, Snapshot, lot_post_init, inventory_post_init}
use baen_economy_engine.Stockflow.Sorting.{sorted}
use baen_economy_engine.Stockflow.Books.{index_by, amount, credit, debit, free_stock, opening_books}
use baen_economy_engine.Stockflow.Arrivals.{arrivals, deliver, is_due}
use baen_economy_engine.Stockflow.Production.{production_phase}
use baen_economy_engine.Stockflow.Shipments.{shipment_phase}
use baen_economy_engine.Stockflow.Needs.{need_phase}
use baen_economy_engine.Stockflow.Hashing.{
  canonical_hash, snapshot_hash, is_sha256, snapshot_id_of, ruleset_hash, validated_event_refs,
  plan_hash,
}
use baen_economy_engine.Stockflow.Verify.{validate_snapshot, seal, has_duplicate}
use baen_economy_engine.Stockflow.Authority.{events_of, require_event_payload, authorize}
use baen_economy_engine.Stockflow.Authority.Plan.{
  authorize_all, same_ids, event_ids, validate_actual_plan,
}
use baen_economy_engine.Stockflow.Authority.Plan.Uses.{mutations_of, Uses}
use baen_economy_engine.Stockflow.Authority.Plan.Bijection.{IsActiveAuthority}
use baen_economy_engine.Stockflow.Closing.{
  commodity_totals, check_books, closing_inventory, conservation, commodity_ids, closing_prices,
}
use baen_economy_engine.Stockflow.Advance.{RunResult, child_of, advance}
use baen_economy_engine.Stockflow.Advance.Actual.{advance-Uses}
use baen_economy_engine.Stockflow.Fixture.{digest, economy, opening, plan, result, value_of}

abbrev batch_payload : Value
batch_payload = obj (
    field "recipe_id" (text "mill")
      (field "requested_batches" (raw (canonical_decimal (whole 2))) end))

-- Stand-ins of the standard library's functions.
abbrev readers : Primitives
readers = record { sha256 = λ cs. digest; uuid5 = λ cs. "u"; loads = λ cs. some batch_payload }

abbrev event : EventEnvelope
event = envelope_of readers (record {
  source_event_key = "k";
  event_revision = 1;
  timeline_id = "actual";
  model_version = "m1";
  campaign_date = record {
    ordinal = pos 130;
    label = "Kythorn 1372";
    year_dr = none;
    month_code = none;
    day = none;
    precision = "month";
  };
  phase = "production";
  sequence = 0;
  authority = Authority.user_ruling;
  temporal_state = TemporalState.current;
  resolution_status = ResolutionStatus.resolved;
  source_ref = "r";
  event_type = "stock.production";
  payload = batch_payload;
  subject_entity_id = some "miller";
  subject_site_id = some "farm";
  reverses_event_id = none;
})

abbrev store : EventStore
store = store_with empty_store event

abbrev parent : Snapshot
parent = record opening { timeline_id = "actual" }

abbrev actual_plan : RunPlan
actual_plan = record plan {
  production_orders =
      record {
        recipe_id = "mill";
        requested_batches = whole 2;
        authorizing_event_id = some "event:u";
      }
      ∷ [];
  shipment_orders = [];
  needs = [];
  authorizing_events = event ∷ [];
  simulation_assignments =
      record {
        entity_id = "miller";
        timeline_id = "actual";
        period_index = 1;
        mode = SimulationMode.stock_flow;
        source_ref = "ruling";
      }
      ∷ [];
}

abbrev outcome : RunResult
outcome = value_of result (advance readers economy parent actual_plan (some store))

actual_run : advance readers economy parent actual_plan (some store) ≡ ok outcome
unfolding advance sorted has_text has_control has_duplicate contains is_sha256 snapshot_hash
    canonical_hash snapshot_id_of le_dec lt_dec eq_dec is_zero min_dec max_dec lookup insert
    index_by amount add sub mul divide fix digits half_even credit debit free_stock opening_books
    lot_post_init inventory_post_init deliver is_due ruleset_hash validated_event_refs plan_hash
    validate_snapshot commodity_totals arrivals production_phase shipment_phase need_phase
    check_books closing_inventory conservation commodity_ids seal child_of closing_prices
    validate_actual_plan canonical_json canonical_decimal validate_unique_assignments
    may_mutate_actual envelope_of codes_eq store_with contains_active contains_exact
    EventEnvelope-discrete require_event_payload authorize authorize_all same_ids decide ℕ_discrete
    phase_rank validate_integrity integrity_hash
actual_run = refl

advance-Uses_example :
    (s : EventStore) × (used : List String) × (some store ≡ some s)
    × All (IsActiveAuthority s) (events_of actual_plan)
    × Uses (events_of actual_plan) (mutations_of actual_plan) [] used
    × All (λ id. contains id used ≡ true) (event_ids (events_of actual_plan))
advance-Uses_example =
    advance-Uses readers economy parent actual_plan (some store) outcome refl actual_run
