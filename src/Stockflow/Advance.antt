-- ===== src/Stockflow/Advance.antt =====
-- stockflow.py: `advance`, the whole run of one period.
pub mod Chain
pub mod Actual
mod Examples
use Prim.Native.Nat.{Ordering}
use Prim.Native.String.{compare as compare_text}
use baen_economy_engine.Prelude.{
  ℕ, suc, ◌+◌, Bool, true, false, ◌&&◌, ◌||◌, not, Option, none, some, String, List, [], ◌∷◌, ◌++◌,
  ◌==◌, str_eq, Result, ok, err, ◌>>=◌, ◌>>◌, raise_if, if◌then◌else◌, any,
}
use baen_economy_engine.Prelude.Int.{ℤ, leb_ℤ}
use baen_economy_engine.Prelude.Dict.{Dict, contains, string_eq}
use baen_economy_engine.Decimal.Number.{Decimal}
use baen_economy_engine.Events.Types.{Primitives, EventEnvelope}
use baen_economy_engine.Events.Store.{EventStore}
use baen_economy_engine.Stockflow.Types.{
  Sim, SimulationError, model_mismatch, ruleset_mismatch, wrong_period, ordinal_not_later,
  event_applied, MaterialFlow, ProductionResult, ShipmentResult, NeedResult, TransitLot,
  InventoryPosition, RunPlan, Snapshot, EconomyModel,
}
use baen_economy_engine.Stockflow.Sorting.{sorted}
use baen_economy_engine.Stockflow.Books.{Books, opening_books}
use baen_economy_engine.Stockflow.Arrivals.{arrivals, compare_lot}
use baen_economy_engine.Stockflow.Production.{production_phase}
use baen_economy_engine.Stockflow.Shipments.{shipment_phase}
use baen_economy_engine.Stockflow.Needs.{need_phase}
use baen_economy_engine.Stockflow.Values.{model_value}
use baen_economy_engine.Stockflow.Hashing.{
  canonical_hash, ruleset_hash, validated_event_refs, plan_hash, compare_ref,
}
use baen_economy_engine.Stockflow.Verify.{validate, validate_snapshot, seal, ref_ids}
use baen_economy_engine.Stockflow.Authority.Plan.{validate_actual_plan}
use baen_economy_engine.Stockflow.Closing.{
  check_books, closing_inventory, closing_prices, commodity_totals, commodity_ids, conservation,
}

pub record RunResult : Type 0 where
  pub snapshot : Snapshot
  pub flows : List MaterialFlow
  pub production : List ProductionResult
  pub shipments : List ShipmentResult
  pub needs : List NeedResult
  pub labor_used : List (String × Decimal)
  pub conservation : List (String × Decimal)

-- The loops of the run, in the order of the code.
unfoldable pub run_phases : EconomyModel → Snapshot → RunPlan → Sim Books
run_phases m parent p = do
  b ← arrivals p.period_index parent.transit (opening_books m parent)
  b ← production_phase m p.production_orders b
  b ← shipment_phase m p.period_index parent.applied_shipment_ids p.shipment_orders b
  need_phase m p.needs b

-- The child before it is sealed.
unfoldable pub child_of :
    Snapshot
    → RunPlan
    → String
    → String
    → List (String × String)
    → Books
    → List InventoryPosition
    → Snapshot
child_of parent p model_hash input_hash refs b inventory = record {
  timeline_id = parent.timeline_id;
  period_index = p.period_index;
  campaign_ordinal = p.campaign_ordinal;
  campaign_date = p.campaign_date;
  ruleset_version = parent.ruleset_version;
  ruleset_hash = parent.ruleset_hash;
  model_hash = model_hash;
  input_hash = some input_hash;
  parent_hash = some parent.state_hash;
  inventories = inventory;
  prices = closing_prices b;
  transit = sorted compare_lot b.transit;
  applied_event_refs = sorted compare_ref (parent.applied_event_refs ++ refs);
  applied_shipment_ids = sorted compare_text (parent.applied_shipment_ids ++ b.shipment_ids);
  snapshot_id = "";
  state_hash = "";
}

-- Labor by site; a site stands once.
abbrev compare_site : String × Decimal → String × Decimal → Ordering
compare_site (a, _) (b, _) = compare_text a b

-- `set(parent.applied_event_ids) & set(event_ids)` is not empty.
abbrev is_replayed : Snapshot → List (String × String) → Bool
is_replayed parent refs = any (λ id. contains id (ref_ids parent.applied_event_refs)) (ref_ids refs)

module _ (prims : Primitives) where
  -- `_model_hash`
  unfoldable pub model_hash : EconomyModel → Sim String
  model_hash m = do validate m; ok (canonical_hash prims (model_value m))

  check_timeline : EconomyModel → Snapshot → RunPlan → Option EventStore → Sim (Unit {0})
  check_timeline m parent p store =
      if str_eq parent.timeline_id "actual"
      then validate_actual_plan prims m parent p store
      else ok tt

  -- The checks before the loops: the model's hash, the plan's hash and the event references.
  unfoldable pub admit :
      EconomyModel
      → Snapshot
      → RunPlan
      → Option EventStore
      → Sim (String × (String × List (String × String)))
  unfolding model_hash check_timeline
  admit m parent p store = do
    validate_snapshot prims m parent
    hash ← model_hash m
    raise_if (not (str_eq parent.model_hash hash)) model_mismatch
    rules ← ruleset_hash prims parent.ruleset_version
    raise_if (not (str_eq parent.ruleset_hash rules)) ruleset_mismatch
    raise_if (not (p.period_index == parent.period_index + 1)) wrong_period
    raise_if (leb_ℤ p.campaign_ordinal parent.campaign_ordinal) ordinal_not_later
    refs ← validated_event_refs prims p.authorizing_events
    raise_if (is_replayed parent refs) event_applied
    check_timeline m parent p store
    input ← plan_hash prims p
    ok (hash, (input, refs))

  -- The checks after the loops, and the result.
  unfoldable pub close :
      EconomyModel
      → Snapshot
      → RunPlan
      → String × (String × List (String × String))
      → Dict String Decimal
      → Books
      → Sim RunResult
  close m parent p admitted opening b = do
    check_books m b
    inventory ← closing_inventory b
    closing ← commodity_totals inventory b.transit
    residuals ← conservation opening closing b (commodity_ids opening closing b)
    child ← seal prims (child_of parent p admitted.0 admitted.1.0 admitted.1.1 b inventory)
    validate_snapshot prims m child
    ok (record {
      snapshot = child;
      flows = b.flows;
      production = b.production_results;
      shipments = b.shipment_results;
      needs = b.need_results;
      labor_used = sorted compare_site b.labor_used;
      conservation = residuals;
    })

  -- `advance`
  unfoldable pub advance : EconomyModel → Snapshot → RunPlan → Option EventStore → Sim RunResult
  unfolding admit run_phases close
  advance m parent p store = do
    admitted ← admit m parent p store
    opening ← commodity_totals parent.inventories parent.transit
    b ← run_phases m parent p
    close m parent p admitted opening b
