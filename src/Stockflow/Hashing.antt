-- ===== src/Stockflow/Hashing.antt =====
-- stockflow.py: the hashes of a snapshot, a model, a rule set and a plan, and `_seal`. SHA-256 is
-- the parameter `Primitives`; what is hashed is written out.
use Prim.Native.Nat.{Ordering, compare as compare_nat}
use Prim.Native.String.{◌++◌ as append, compare as compare_text}
use baen_economy_engine.Prelude.{
  ℕ, zero, suc, Bool, ◌&&◌, ◌||◌, not, String, List, [], ◌∷◌, leb, ◌==◌, length, ok, ◌>>=◌, ◌>>◌,
  raise_if, all,
}
use baen_economy_engine.Prelude.Int.{pos, negsuc}
use baen_economy_engine.Prelude.Dict.{contains, string_eq}
use baen_economy_engine.Prelude.Text.{codes, has_text}
use baen_economy_engine.Json.{Value, int, text, obj, end, field, canonical_json}
use baen_economy_engine.Decimal.Text.{canonical_decimal}
use baen_economy_engine.Domain.Labels.{SimulationMode}
use baen_economy_engine.Domain.Assignments.{SimulationAssignment}
use baen_economy_engine.Events.Types.{Primitives, EventEnvelope}
use baen_economy_engine.Events.Envelope.{validate_integrity, integrity_hash}
use baen_economy_engine.Stockflow.Types.{
  Sim, checked, missing_text, duplicate_event, ProductionOrder, ShipmentOrder, Need, RunPlan,
  Snapshot,
}
use baen_economy_engine.Stockflow.Sorting.{◌then_by◌, compare_int, text_or_empty, sorted}
use baen_economy_engine.Stockflow.Values.{dec, optional_text, list_value, ref_value, snapshot_value}

-- The order of two texts given by their code points.
compare_codes : List ℕ → List ℕ → Ordering
compare_codes [] [] = Ordering.eq
compare_codes [] (y ∷ ys) = Ordering.lt
compare_codes (x ∷ xs) [] = Ordering.gt
compare_codes (x ∷ xs) (y ∷ ys) = compare_nat x y then_by compare_codes xs ys

compare_production : ProductionOrder → ProductionOrder → Ordering
unfolding compare_codes
compare_production a b =
    compare_text a.recipe_id b.recipe_id
    then_by compare_codes (canonical_decimal a.requested_batches)
        (canonical_decimal b.requested_batches)
    then_by compare_text (text_or_empty a.authorizing_event_id)
        (text_or_empty b.authorizing_event_id)

compare_need : Need → Need → Ordering
unfolding compare_codes
compare_need a b =
    compare_int a.priority b.priority
    then_by compare_text a.site_id b.site_id
    then_by compare_text a.commodity_id b.commodity_id
    then_by compare_codes (canonical_decimal a.requested_quantity)
        (canonical_decimal b.requested_quantity)
    then_by compare_text (text_or_empty a.authorizing_event_id)
        (text_or_empty b.authorizing_event_id)

compare_assignment : SimulationAssignment → SimulationAssignment → Ordering
compare_assignment a b =
    compare_text a.entity_id b.entity_id
    then_by compare_text a.timeline_id b.timeline_id
    then_by compare_nat a.period_index b.period_index

production_value : ProductionOrder → Value
production_value o = obj (
    field "recipe_id" (text o.recipe_id) (
      field "requested_batches" (dec o.requested_batches)
        (field "authorizing_event_id" (optional_text o.authorizing_event_id) end)))

shipment_value : ShipmentOrder → Value
shipment_value o = obj (
    field "shipment_id" (text o.shipment_id) (
      field "route_id" (text o.route_id) (
        field "commodity_id" (text o.commodity_id) (
          field "requested_quantity" (dec o.requested_quantity) (
            field "source_ref" (text o.source_ref)
              (field "authorizing_event_id" (optional_text o.authorizing_event_id) end))))))

need_value : Need → Value
need_value n = obj (
    field "site_id" (text n.site_id) (
      field "commodity_id" (text n.commodity_id) (
        field "requested_quantity" (dec n.requested_quantity) (
          field "priority" (int n.priority)
            (field "authorizing_event_id" (optional_text n.authorizing_event_id) end)))))

mode_text : SimulationMode → String
mode_text SimulationMode.legacy = "legacy"
mode_text SimulationMode.stock_flow = "stock_flow"
mode_text SimulationMode.cost_center = "cost_center"
mode_text SimulationMode.consolidation_only = "consolidation_only"
mode_text SimulationMode.external = "external"

assignment_value : SimulationAssignment → Value
unfolding mode_text
assignment_value a = obj (
    field "entity_id" (text a.entity_id) (
      field "timeline_id" (text a.timeline_id) (
        field "period_index" (int (pos a.period_index))
          (field "mode" (text (mode_text a.mode)) (field "source_ref" (text a.source_ref) end)))))

-- The object that `_plan_hash` hashes, given the references of its events.
plan_value : RunPlan → List (String × String) → Value
unfolding compare_production compare_need compare_assignment production_value shipment_value
    need_value assignment_value
plan_value p refs = obj (
    field "period_index" (int (pos p.period_index)) (
      field "campaign_ordinal" (int p.campaign_ordinal) (
        field "campaign_date" (text p.campaign_date) (
          field "production_orders"
            (list_value production_value (sorted compare_production p.production_orders))
            (field "shipment_orders"
              (list_value shipment_value (
                sorted (λ (a b : ShipmentOrder). compare_text a.shipment_id b.shipment_id)
                  p.shipment_orders))
              (field "needs" (list_value need_value (sorted compare_need p.needs)) (
                field "authorizing_event_refs" (list_value ref_value refs) (
                  field "simulation_assignments"
                    (list_value assignment_value
                      (sorted compare_assignment p.simulation_assignments))
                    end))))))))

-- The object that `_ruleset_hash` hashes.
ruleset_value : String → Value
ruleset_value version = obj (
    field "engine_schema" (text "tnp.economy.stockflow/1") (
      field "ruleset_version" (text version) (
        field "decimal_context"
          (obj (
            field "prec" (int (pos 40)) (
              field "rounding" (text "ROUND_HALF_EVEN") (
                field "emin" (int (negsuc 999998)) (
                  field "emax" (int (pos 999999)) (
                    field "capitals" (int (pos 1)) (
                      field "clamp" (int (pos 0)) (
                        field "traps"
                          (list_value text
                            ("DivisionByZero" ∷ "InvalidOperation" ∷ "Overflow" ∷ []))
                          end))))))))
          end)))

take_text : ℕ → String → String
take_text zero s = ""
take_text (suc n) String.[] = ""
take_text (suc n) (String.◌∷◌ c s) = String.◌∷◌ c (take_text n s)

-- `f"snapshot:{digest[:16]}"`
unfoldable pub snapshot_id_of : String → String
unfolding take_text
snapshot_id_of digest = append "snapshot:" (take_text 16 digest)

is_hex : ℕ → Bool
is_hex c = (leb 48 c && leb c 57) || (leb 97 c && leb c 102)

-- `_is_sha256`
unfoldable pub is_sha256 : String → Bool
unfolding is_hex
is_sha256 s = length (codes s) == 64 && all is_hex (codes s)

abbrev pub compare_ref : String × String → String × String → Ordering
compare_ref (a, h) (b, k) = compare_text a b then_by compare_text h k

module _ (prims : Primitives) where
  -- `_canonical_hash`
  unfoldable pub canonical_hash : Value → String
  canonical_hash v = prims.sha256 (canonical_json v)

  -- `_snapshot_hash`
  unfoldable pub snapshot_hash : Snapshot → String
  unfolding canonical_hash
  snapshot_hash s = canonical_hash (snapshot_value s)

  -- `_ruleset_hash`
  unfoldable pub ruleset_hash : String → Sim String
  unfolding canonical_hash ruleset_value
  ruleset_hash version = do
    raise_if (not (has_text version)) missing_text
    ok (canonical_hash (ruleset_value version))

  -- The loop of `_validated_event_refs`, over the ids seen so far.
  refs_from : List String → List EventEnvelope → Sim (List (String × String))
  refs_from seen [] = ok []
  refs_from seen (e ∷ events) = do
    checked (validate_integrity prims e)
    raise_if (contains e.event_id seen) duplicate_event
    hash ← checked (integrity_hash prims e)
    refs ← refs_from (e.event_id ∷ seen) events
    ok ((e.event_id, hash) ∷ refs)

  -- `_validated_event_refs`
  unfoldable pub validated_event_refs : List EventEnvelope → Sim (List (String × String))
  unfolding refs_from
  validated_event_refs events = do refs ← refs_from [] events; ok (sorted compare_ref refs)

  -- `_plan_hash`
  unfoldable pub plan_hash : RunPlan → Sim String
  unfolding canonical_hash plan_value
  plan_hash p = do
    refs ← validated_event_refs p.authorizing_events
    ok (canonical_hash (plan_value p refs))
