-- ===== src/Stockflow/Values.antt =====
-- stockflow.py: what the hashes of a snapshot and a model are of, as the JSON objects that
-- `_normalize_for_hash` makes of them.
use Prim.Native.String.{compare as compare_text}
use baen_economy_engine.Prelude.{Option, none, some, String, List, [], ◌∷◌}
use baen_economy_engine.Prelude.Int.{pos}
use baen_economy_engine.Prelude.Dict.{string_eq}
use baen_economy_engine.Json.{
  Value, null, bool, int, text, raw, arr, obj, Items, nil, cons, end, field,
}
use baen_economy_engine.Decimal.Number.{Decimal}
use baen_economy_engine.Decimal.Text.{canonical_decimal}
use baen_economy_engine.Stockflow.Types.{
  Commodity, Site, Recipe, Route, InventoryPosition, PricePosition, TransitLot, Snapshot,
  EconomyModel,
}
use baen_economy_engine.Stockflow.Sorting.{sorted}

abbrev pub dec : Decimal → Value
dec d = raw (canonical_decimal d)

abbrev optional_dec : Option Decimal → Value
optional_dec none = null
optional_dec (some d) = dec d

abbrev pub optional_text : Option String → Value
optional_text none = null
optional_text (some s) = text s

module _ {ℓ} {A : Type ℓ} (value : A → Value) where
  unfoldable pub items : List A → Items
  items [] = nil
  items (x ∷ xs) = cons (value x) (items xs)

abbrev pub list_value {ℓ} : {A : Type ℓ} → (A → Value) → List A → Value
list_value value xs = arr (items value xs)

abbrev pub inventory_value : InventoryPosition → Value
inventory_value p = obj (
    field "site_id" (text p.site_id) (
      field "commodity_id" (text p.commodity_id) (
        field "quantity" (dec p.quantity)
          (field "reserved_quantity" (dec p.reserved_quantity) end))))

abbrev pub price_value : PricePosition → Value
price_value p = obj (
    field "site_id" (text p.site_id)
      (field "commodity_id" (text p.commodity_id) (field "amount" (dec p.amount) end)))

abbrev pub lot_value : TransitLot → Value
lot_value l = obj (
    field "shipment_id" (text l.shipment_id) (
      field "route_id" (text l.route_id) (
        field "commodity_id" (text l.commodity_id) (
          field "origin_site_id" (text l.origin_site_id) (
            field "destination_site_id" (text l.destination_site_id) (
              field "quantity" (dec l.quantity) (
                field "arrival_period_index" (int (pos l.arrival_period_index))
                  (field "loss_rate" (dec l.loss_rate) end))))))))

abbrev pub ref_value : String × String → Value
ref_value (id, hash) = arr (cons (text id) (cons (text hash) nil))

-- `asdict(snapshot)` without the snapshot's id and hash.
unfoldable pub snapshot_value : Snapshot → Value
unfolding items
snapshot_value s = obj (
    field "timeline_id" (text s.timeline_id) (
      field "period_index" (int (pos s.period_index)) (
        field "campaign_ordinal" (int s.campaign_ordinal) (
          field "campaign_date" (text s.campaign_date) (
            field "ruleset_version" (text s.ruleset_version) (
              field "ruleset_hash" (text s.ruleset_hash) (
                field "model_hash" (text s.model_hash) (
                  field "input_hash" (optional_text s.input_hash) (
                    field "parent_hash" (optional_text s.parent_hash) (
                      field "inventories" (list_value inventory_value s.inventories) (
                        field "prices" (list_value price_value s.prices) (
                          field "transit" (list_value lot_value s.transit) (
                            field "applied_event_refs" (list_value ref_value s.applied_event_refs) (
                              field "applied_shipment_ids" (list_value text s.applied_shipment_ids)
                                end))))))))))))))

abbrev commodity_value : Commodity → Value
commodity_value c = obj (
    field "commodity_id" (text c.commodity_id) (
      field "name" (text c.name) (
        field "unit" (text c.unit) (
          field "base_price" (optional_dec c.base_price) (
            field "elasticity" (dec c.elasticity) (
              field "floor_factor" (dec c.floor_factor) (
                field "ceiling_factor" (dec c.ceiling_factor)
                  (field "market_price_enabled" (bool c.market_price_enabled) end))))))))

abbrev site_value : Site → Value
site_value s = obj (
    field "site_id" (text s.site_id)
      (field "name" (text s.name) (field "labor_capacity" (dec s.labor_capacity) end)))

abbrev part_value : String × Decimal → Value
part_value (id, quantity) = arr (cons (text id) (cons (dec quantity) nil))

abbrev recipe_value : Recipe → Value
recipe_value r = obj (
    field "recipe_id" (text r.recipe_id) (
      field "site_id" (text r.site_id) (
        field "entity_id" (text r.entity_id) (
          field "inputs" (list_value part_value r.inputs) (
            field "outputs" (list_value part_value r.outputs) (
              field "labor_per_batch" (dec r.labor_per_batch) (
                field "max_batches" (dec r.max_batches)
                  (field "priority" (int r.priority) end))))))))

abbrev route_value : Route → Value
route_value r = obj (
    field "route_id" (text r.route_id) (
      field "origin_site_id" (text r.origin_site_id) (
        field "destination_site_id" (text r.destination_site_id) (
          field "commodity_id" (text r.commodity_id) (
            field "capacity_per_period" (dec r.capacity_per_period) (
              field "travel_periods" (int (pos r.travel_periods))
                (field "loss_rate" (dec r.loss_rate) end)))))))

-- The object that `_model_hash` hashes. The ids of a valid model are unique, so they alone order it.
unfoldable pub model_value : EconomyModel → Value
unfolding items
model_value m = obj (
    field "commodities"
      (list_value commodity_value
        (sorted (λ (a b : Commodity). compare_text a.commodity_id b.commodity_id) m.commodities))
      (field "sites"
        (list_value site_value (sorted (λ (a b : Site). compare_text a.site_id b.site_id) m.sites))
        (field "recipes"
          (list_value recipe_value
            (sorted (λ (a b : Recipe). compare_text a.recipe_id b.recipe_id) m.recipes))
          (field "routes"
            (list_value route_value
              (sorted (λ (a b : Route). compare_text a.route_id b.route_id) m.routes))
            (field "model_version" (text m.model_version) end)))))
