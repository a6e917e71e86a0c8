-- ===== src/Stockflow/Types.antt =====
-- stockflow.py: the records of the model, of a snapshot and of a plan, with the checks that their
-- constructors make. Types, finiteness and immutability are given by the model's types; integers
-- that the source refuses when negative are natural numbers.
use baen_economy_engine.Prelude.{
  ℕ, Bool, true, false, ◌&&◌, ◌||◌, not, Option, none, some, String, List, [], ◌∷◌, ◌++◌, ltb,
  Result, ok, err, ◌>>=◌, ◌>>◌, raise_if, any, str_eq,
}
use baen_economy_engine.Prelude.Int.{ℤ}
use baen_economy_engine.Prelude.Text.{has_text}
use baen_economy_engine.Decimal.Number.{Decimal, zero_dec, one_dec, le_dec, lt_dec, max_dec}
use baen_economy_engine.Decimal.Context.{DecimalError, sub}
use baen_economy_engine.Domain.Assignments.{SimulationAssignment}
use baen_economy_engine.Events.Types.{EventEnvelope, EventError}

pub data SimulationError : Type 0 where
  missing_text bad_price bad_floor bad_ceiling bad_elasticity negative_labor : SimulationError
  bad_recipe bad_quantity no_outputs bad_capacity bad_travel bad_loss : SimulationError
  negative_inventory reservation_exceeds bad_lot bad_hash bad_parent hash_mismatch : SimulationError
  duplicate_id unknown_site unknown_commodity unknown_route unknown_recipe : SimulationError
  route_mismatch lot_already_due duplicate_shipment negative_request : SimulationError
  model_mismatch ruleset_mismatch wrong_period ordinal_not_later : SimulationError
  event_applied duplicate_event unauthorised : SimulationError
  stock_escaped labor_escaped route_oversubscribed not_conserved untracked_price : SimulationError
  arithmetic : DecimalError → SimulationError
  from_event : EventError → SimulationError

abbrev pub Sim {ℓ} : Type ℓ → Type ℓ
Sim A = Result SimulationError A

-- A decimal operation inside a run; what it raises ends the run.
abbrev pub calc {ℓ} : {A : Type ℓ} → Result DecimalError A → Sim A
calc (ok a) = ok a
calc (err e) = err (arithmetic e)

abbrev pub checked {ℓ} : {A : Type ℓ} → Result EventError A → Sim A
checked (ok a) = ok a
checked (err e) = err (from_event e)

pub data FlowKind : Type 0 where
  arrival route_loss recipe_input production dispatch consumption : FlowKind

pub record Commodity : Type 0 where
  pub commodity_id : String
  pub name : String
  pub unit : String
  pub base_price : Option Decimal
  pub elasticity : Decimal
  pub floor_factor : Decimal
  pub ceiling_factor : Decimal
  pub market_price_enabled : Bool

check_base_price : Bool → Option Decimal → Sim (Unit {0})
check_base_price true none = err bad_price
check_base_price true (some p) = raise_if (le_dec p zero_dec) bad_price
check_base_price false none = ok tt
check_base_price false (some p) = err bad_price

-- `Commodity.__post_init__`
unfoldable pub commodity_post_init : Commodity → Sim Commodity
unfolding check_base_price
commodity_post_init c = do
  raise_if (not (has_text c.commodity_id && (has_text c.name && has_text c.unit))) missing_text
  check_base_price c.market_price_enabled c.base_price
  raise_if (le_dec c.floor_factor zero_dec) bad_floor
  raise_if (lt_dec c.ceiling_factor c.floor_factor) bad_ceiling
  raise_if (lt_dec c.elasticity zero_dec) bad_elasticity
  ok c

pub record Site : Type 0 where
  pub site_id : String
  pub name : String
  pub labor_capacity : Decimal

-- `Site.__post_init__`
unfoldable pub site_post_init : Site → Sim Site
site_post_init s = do raise_if (lt_dec s.labor_capacity zero_dec) negative_labor; ok s

pub record Recipe : Type 0 where
  pub recipe_id : String
  pub site_id : String
  pub entity_id : String
  pub inputs : List (String × Decimal)
  pub outputs : List (String × Decimal)
  pub labor_per_batch : Decimal
  pub max_batches : Decimal
  pub priority : ℤ

is_empty {ℓ} : {A : Type ℓ} → List A → Bool
is_empty [] = true
is_empty (_ ∷ _) = false

-- `Recipe.__post_init__`
unfoldable pub recipe_post_init : Recipe → Sim Recipe
unfolding is_empty
recipe_post_init r = do
  raise_if (lt_dec r.labor_per_batch zero_dec || lt_dec r.max_batches zero_dec) bad_recipe
  raise_if (any (λ (pair : String × Decimal). le_dec pair.1 zero_dec) (r.inputs ++ r.outputs))
      bad_quantity
  raise_if (is_empty r.outputs) no_outputs
  ok r

pub record Route : Type 0 where
  pub route_id : String
  pub origin_site_id : String
  pub destination_site_id : String
  pub commodity_id : String
  pub capacity_per_period : Decimal
  pub travel_periods : ℕ
  pub loss_rate : Decimal

-- `not (ZERO <= rate < ONE)`
abbrev pub is_bad_rate : Decimal → Bool
is_bad_rate rate = not (le_dec zero_dec rate && lt_dec rate one_dec)

-- `Route.__post_init__`
unfoldable pub route_post_init : Route → Sim Route
route_post_init r = do
  raise_if (ltb r.travel_periods 1) bad_travel
  raise_if (lt_dec r.capacity_per_period zero_dec) bad_capacity
  raise_if (is_bad_rate r.loss_rate) bad_loss
  ok r

pub record InventoryPosition : Type 0 where
  pub site_id : String
  pub commodity_id : String
  pub quantity : Decimal
  pub reserved_quantity : Decimal

-- `InventoryPosition.__post_init__`
unfoldable pub inventory_post_init : InventoryPosition → Sim InventoryPosition
inventory_post_init p = do
  raise_if (lt_dec p.quantity zero_dec || lt_dec p.reserved_quantity zero_dec) negative_inventory
  raise_if (lt_dec p.quantity p.reserved_quantity) reservation_exceeds
  ok p

-- `available_quantity`
unfoldable pub available_quantity : Option InventoryPosition → Sim Decimal
available_quantity none = ok zero_dec
available_quantity (some p) = do
  d ← calc (sub p.quantity p.reserved_quantity)
  ok (max_dec zero_dec d)

pub record PricePosition : Type 0 where
  pub site_id : String
  pub commodity_id : String
  pub amount : Decimal

pub record TransitLot : Type 0 where
  pub shipment_id : String
  pub route_id : String
  pub commodity_id : String
  pub origin_site_id : String
  pub destination_site_id : String
  pub quantity : Decimal
  pub arrival_period_index : ℕ
  pub loss_rate : Decimal

is_blank : String → Bool
is_blank s = str_eq s ""

-- `TransitLot.__post_init__`
unfoldable pub lot_post_init : TransitLot → Sim TransitLot
unfolding is_blank
lot_post_init l = do
  raise_if (ltb l.arrival_period_index 1) bad_lot
  raise_if
      (any is_blank (
        l.shipment_id ∷ l.route_id ∷ l.commodity_id ∷ l.origin_site_id ∷ l.destination_site_id
        ∷ []))
      bad_lot
  raise_if (le_dec l.quantity zero_dec) bad_lot
  raise_if (is_bad_rate l.loss_rate) bad_loss
  ok l

pub record ProductionOrder : Type 0 where
  pub recipe_id : String
  pub requested_batches : Decimal
  pub authorizing_event_id : Option String

pub record ShipmentOrder : Type 0 where
  pub shipment_id : String
  pub route_id : String
  pub commodity_id : String
  pub requested_quantity : Decimal
  pub source_ref : String
  pub authorizing_event_id : Option String

pub record Need : Type 0 where
  pub site_id : String
  pub commodity_id : String
  pub requested_quantity : Decimal
  pub priority : ℤ
  pub authorizing_event_id : Option String

pub record RunPlan : Type 0 where
  pub period_index : ℕ
  pub campaign_ordinal : ℤ
  pub campaign_date : String
  pub production_orders : List ProductionOrder
  pub shipment_orders : List ShipmentOrder
  pub needs : List Need
  pub authorizing_events : List EventEnvelope
  pub simulation_assignments : List SimulationAssignment

pub record MaterialFlow : Type 0 where
  pub kind : FlowKind
  pub site_id : String
  pub commodity_id : String
  pub quantity : Decimal
  pub reference_id : List ℕ

pub record ProductionResult : Type 0 where
  pub recipe_id : String
  pub requested_batches : Decimal
  pub actual_batches : Decimal

pub record ShipmentResult : Type 0 where
  pub shipment_id : String
  pub requested_quantity : Decimal
  pub dispatched_quantity : Decimal

pub record NeedResult : Type 0 where
  pub site_id : String
  pub commodity_id : String
  pub requested_quantity : Decimal
  pub consumed_quantity : Decimal

pub record Snapshot : Type 0 where
  pub timeline_id : String
  pub period_index : ℕ
  pub campaign_ordinal : ℤ
  pub campaign_date : String
  pub ruleset_version : String
  pub ruleset_hash : String
  pub model_hash : String
  pub input_hash : Option String
  pub parent_hash : Option String
  pub inventories : List InventoryPosition
  pub prices : List PricePosition
  pub transit : List TransitLot
  pub applied_event_refs : List (String × String)
  pub applied_shipment_ids : List String
  pub snapshot_id : String
  pub state_hash : String

pub record EconomyModel : Type 0 where
  pub commodities : List Commodity
  pub sites : List Site
  pub recipes : List Recipe
  pub routes : List Route
  pub model_version : String
