-- ===== src/Stockflow/Opening.antt =====
-- stockflow.py: `initial_snapshot` and `_validate_actual_opening_payload`.
pub mod Root
pub mod Sourced
mod Examples
use Prim.Native.String.{compare as compare_text}
use baen_economy_engine.Prelude.{
  ℕ, Bool, true, false, ◌||◌, not, Option, none, some, String, List, [], ◌∷◌, str_eq, if◌then◌else◌,
  Result, ok, err, ◌>>=◌, ◌>>◌, raise_if,
}
use baen_economy_engine.Prelude.Int.{ℤ, eqb_ℤ}
use baen_economy_engine.Prelude.Dict.{contains, string_eq}
use baen_economy_engine.Prelude.Text.{has_text}
use baen_economy_engine.Json.{Value, int, text, obj, end, field, canonical_json}
use baen_economy_engine.Events.Types.{Primitives, EventEnvelope, may_mutate_actual}
use baen_economy_engine.Events.Envelope.{codes_eq}
use baen_economy_engine.Events.Store.{EventStore, contains_active}
use baen_economy_engine.Stockflow.Types.{
  Sim, SimulationError, missing_text, unauthorised, InventoryPosition, PricePosition, TransitLot,
  Snapshot, EconomyModel,
}
use baen_economy_engine.Stockflow.Sorting.{sorted}
use baen_economy_engine.Stockflow.Arrivals.{compare_lot}
use baen_economy_engine.Stockflow.Values.{
  items, list_value, inventory_value, price_value, lot_value, ref_value,
}
use baen_economy_engine.Stockflow.Hashing.{canonical_hash, ruleset_hash, validated_event_refs}
use baen_economy_engine.Stockflow.Verify.{validate_snapshot, seal}
use baen_economy_engine.Stockflow.Closing.{compare_position, compare_price}
use baen_economy_engine.Stockflow.Advance.{model_hash}

-- What `initial_snapshot` is called with.
pub record OpeningInput : Type 0 where
  pub timeline_id : String
  pub campaign_ordinal : ℤ
  pub campaign_date : String
  pub ruleset_version : String
  pub inventories : List InventoryPosition
  pub prices : List PricePosition
  pub transit : List TransitLot
  pub opening_events : List EventEnvelope

-- The input with its state in order.
unfoldable pub materialized : OpeningInput → OpeningInput
materialized i = record i {
  inventories = sorted compare_position i.inventories;
  prices = sorted compare_price i.prices;
  transit = sorted compare_lot i.transit;
}

-- `expected_payload`
unfoldable pub opening_payload : OpeningInput → Value
opening_payload i = obj (
    field "timeline_id" (text i.timeline_id) (
      field "campaign_ordinal" (int i.campaign_ordinal) (
        field "campaign_date" (text i.campaign_date) (
          field "inventories" (list_value inventory_value i.inventories) (
            field "prices" (list_value price_value i.prices)
              (field "transit" (list_value lot_value i.transit) end))))))

-- `_validate_actual_opening_payload`
validate_opening_payload : OpeningInput → List EventEnvelope → Sim (Unit {0})
unfolding opening_payload
validate_opening_payload i [] = err unauthorised
validate_opening_payload i (e ∷ []) = do
  raise_if (not (str_eq e.phase "source_lock") || not (str_eq e.event_type "stock.opening"))
      unauthorised
  raise_if (not (codes_eq e.payload_json (canonical_json (opening_payload i)))) unauthorised
validate_opening_payload i (e ∷ f ∷ events) = err unauthorised

-- The checks of one opening event.
check_opening_event : EconomyModel → OpeningInput → EventStore → EventEnvelope → Sim (Unit {0})
check_opening_event m i store e = do
  raise_if (not (may_mutate_actual e) || not (eqb_ℤ e.campaign_date.ordinal i.campaign_ordinal))
      unauthorised
  raise_if (not (str_eq e.campaign_date.label i.campaign_date)) unauthorised
  raise_if (not (contains_active store e)) unauthorised
  raise_if (not (str_eq e.model_version m.model_version)) unauthorised

check_opening_events :
    EconomyModel → OpeningInput → EventStore → List EventEnvelope → Sim (Unit {0})
unfolding check_opening_event
check_opening_events m i store [] = ok tt
check_opening_events m i store (e ∷ events) = do
  check_opening_event m i store e
  check_opening_events m i store events

abbrev has_none : List EventEnvelope → Bool
has_none [] = true
has_none (_ ∷ _) = false

with_opening_store : EconomyModel → OpeningInput → Option EventStore → Sim (Unit {0})
unfolding check_opening_events validate_opening_payload
with_opening_store m i none = err unauthorised
with_opening_store m i (some store) = do
  check_opening_events m i store i.opening_events
  validate_opening_payload i i.opening_events

-- What the actual timeline asks of its opening.
pub authorize_opening : EconomyModel → OpeningInput → Option EventStore → Sim (Unit {0})
unfolding with_opening_store
authorize_opening m i store =
    if str_eq i.timeline_id "actual"
    then (do raise_if (has_none i.opening_events) unauthorised; with_opening_store m i store)
    else ok tt

-- The ids of the lots, as a set.
lot_id_set : List TransitLot → List String
lot_id_set [] = []
lot_id_set (lot ∷ lots) =
    let rest = lot_id_set lots in
    if contains lot.shipment_id rest then rest else lot.shipment_id ∷ rest

unfoldable pub opening_of :
    OpeningInput → String → String → String → List (String × String) → Snapshot
unfolding lot_id_set
opening_of i rules model input refs = record {
  timeline_id = i.timeline_id;
  period_index = 0;
  campaign_ordinal = i.campaign_ordinal;
  campaign_date = i.campaign_date;
  ruleset_version = i.ruleset_version;
  ruleset_hash = rules;
  model_hash = model;
  input_hash = some input;
  parent_hash = none;
  inventories = i.inventories;
  prices = i.prices;
  transit = i.transit;
  applied_event_refs = refs;
  applied_shipment_ids = sorted compare_text (lot_id_set i.transit);
  snapshot_id = "";
  state_hash = "";
}

module _ (prims : Primitives) where
  -- The part after the texts, over the input in order.
  pub open_with : EconomyModel → OpeningInput → Option EventStore → Sim Snapshot
  unfolding authorize_opening
  open_with m i store = do
    authorize_opening m i store
    refs ← validated_event_refs prims i.opening_events
    rules ← ruleset_hash prims i.ruleset_version
    model ← model_hash prims m
    let input = canonical_hash prims (obj (field "opening_events" (list_value ref_value refs) end))
    snapshot ← seal prims (opening_of i rules model input refs)
    validate_snapshot prims m snapshot
    ok snapshot

  -- `initial_snapshot`
  unfoldable pub initial_snapshot : EconomyModel → OpeningInput → Option EventStore → Sim Snapshot
  unfolding open_with
  initial_snapshot m i store = do
    raise_if (not (has_text i.timeline_id)) missing_text
    raise_if (not (has_text i.campaign_date)) missing_text
    raise_if (not (has_text i.ruleset_version)) missing_text
    open_with m (materialized i) store
