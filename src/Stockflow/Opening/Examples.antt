-- ===== src/Stockflow/Opening/Examples.antt =====
-- stockflow.py: an opening of a trial timeline, and one of the actual timeline with its event.
use mathlib.Core.Bool.{decide}
use baen_economy_engine.Prelude.{◌≡◌, refl, none, some, [], ◌∷◌, ok, ℕ_discrete, All}
use baen_economy_engine.Prelude.Int.{pos}
use baen_economy_engine.Prelude.Dict.{contains, lookup, insert}
use baen_economy_engine.Prelude.Text.{has_text, has_control}
use baen_economy_engine.Json.{Value, canonical_json}
use baen_economy_engine.Decimal.Number.{le_dec, lt_dec, eq_dec}
use baen_economy_engine.Decimal.Text.{canonical_decimal}
use baen_economy_engine.Domain.Labels.{Authority, TemporalState}
use baen_economy_engine.Events.Types.{
  Primitives, ResolutionStatus, EventEnvelope, may_mutate_actual, phase_rank,
}
use baen_economy_engine.Events.Envelope.{envelope_of, codes_eq, validate_integrity, integrity_hash}
use baen_economy_engine.Events.Store.{
  EventStore, empty_store, store_with, contains_active, contains_exact, EventEnvelope-discrete,
}
use baen_economy_engine.Stockflow.Types.{Snapshot}
use baen_economy_engine.Stockflow.Sorting.{sorted}
use baen_economy_engine.Stockflow.Books.{index_by}
use baen_economy_engine.Stockflow.Values.{items}
use baen_economy_engine.Stockflow.Hashing.{
  canonical_hash, snapshot_hash, is_sha256, snapshot_id_of, ruleset_hash, validated_event_refs,
}
use baen_economy_engine.Stockflow.Verify.{validate_snapshot, seal, has_duplicate}
use baen_economy_engine.Stockflow.Verify.Facts.{IsSound, IsLater}
use baen_economy_engine.Stockflow.Advance.{model_hash}
use baen_economy_engine.Stockflow.Opening.{
  OpeningInput, materialized, opening_payload, opening_of, initial_snapshot,
}
use baen_economy_engine.Stockflow.Opening.Root.{IsRoot, initial_snapshot-IsRoot}
use baen_economy_engine.Stockflow.Opening.Sourced.{IsOpenedBy, initial_snapshot-IsOpenedBy}
use baen_economy_engine.Stockflow.Fixture.{
  digest, economy, farm_grain, lot_due, lot_later, opening, prims, value_of,
}

abbrev trial : OpeningInput
trial = record {
  timeline_id = "trial";
  campaign_ordinal = pos 100;
  campaign_date = "Mirtul 1372";
  ruleset_version = "r1";
  inventories = farm_grain ∷ [];
  prices = [];
  transit = lot_later ∷ lot_due ∷ [];
  opening_events = [];
}

abbrev opened : Snapshot
opened = value_of opening (initial_snapshot prims economy trial none)

trial_run : initial_snapshot prims economy trial none ≡ ok opened
unfolding initial_snapshot materialized opening_of sorted has_text has_duplicate contains lookup
    insert index_by le_dec lt_dec eq_dec is_sha256 snapshot_hash canonical_hash snapshot_id_of
    ruleset_hash validated_event_refs validate_snapshot seal model_hash
trial_run = refl

initial_snapshot-IsRoot_example :
    IsRoot trial opened
    × (opened.state_hash ≡ snapshot_hash prims opened)
    × IsSound opened
    × All (IsLater opened.period_index) opened.transit
initial_snapshot-IsRoot_example = initial_snapshot-IsRoot prims economy trial none opened trial_run

abbrev actual_state : OpeningInput
actual_state = record trial { timeline_id = "actual" }

abbrev payload : Value
payload = opening_payload (materialized actual_state)

-- Stand-ins of the standard library's functions.
abbrev readers : Primitives
readers = record { sha256 = λ cs. digest; uuid5 = λ cs. "u"; loads = λ cs. some payload }

abbrev event : EventEnvelope
event = envelope_of readers (record {
  source_event_key = "k";
  event_revision = 1;
  timeline_id = "actual";
  model_version = "m1";
  campaign_date = record {
    ordinal = pos 100;
    label = "Mirtul 1372";
    year_dr = none;
    month_code = none;
    day = none;
    precision = "month";
  };
  phase = "source_lock";
  sequence = 0;
  authority = Authority.user_ruling;
  temporal_state = TemporalState.current;
  resolution_status = ResolutionStatus.resolved;
  source_ref = "r";
  event_type = "stock.opening";
  payload = payload;
  subject_entity_id = none;
  subject_site_id = none;
  reverses_event_id = none;
})

abbrev store : EventStore
store = store_with empty_store event

abbrev actual : OpeningInput
actual = record actual_state { opening_events = event ∷ [] }

abbrev actual_opened : Snapshot
actual_opened = value_of opening (initial_snapshot readers economy actual (some store))

actual_run : initial_snapshot readers economy actual (some store) ≡ ok actual_opened
unfolding initial_snapshot materialized opening_of opening_payload sorted has_text has_control
    has_duplicate contains lookup insert index_by le_dec lt_dec eq_dec is_sha256 snapshot_hash
    canonical_hash snapshot_id_of ruleset_hash validated_event_refs validate_snapshot seal
    model_hash may_mutate_actual phase_rank envelope_of codes_eq validate_integrity integrity_hash
    store_with contains_active contains_exact EventEnvelope-discrete decide ℕ_discrete
    canonical_json canonical_decimal items
actual_run = refl

initial_snapshot-IsOpenedBy_example :
    (t : EventStore) × (e : EventEnvelope) × (some store ≡ some t)
    × IsOpenedBy (materialized actual) t e
initial_snapshot-IsOpenedBy_example =
    initial_snapshot-IsOpenedBy readers economy actual (some store) actual_opened refl actual_run
