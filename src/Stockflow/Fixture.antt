-- ===== src/Stockflow/Fixture.antt =====
-- stockflow.py: a small economy, a snapshot of it and a plan, and what the kernel makes of them.
use baen_economy_engine.Prelude.{true, false, none, some, String, [], ◌∷◌, ok, err}
use baen_economy_engine.Prelude.Int.{pos}
use baen_economy_engine.Decimal.Number.{whole, fraction}
use baen_economy_engine.Events.Types.{Primitives}
use baen_economy_engine.Stockflow.Types.{
  Sim, Commodity, Recipe, Route, InventoryPosition, TransitLot, RunPlan, Snapshot, EconomyModel,
}
use baen_economy_engine.Stockflow.Books.{Books, opening_books}
use baen_economy_engine.Stockflow.Arrivals.{arrivals}
use baen_economy_engine.Stockflow.Production.{production_phase}
use baen_economy_engine.Stockflow.Shipments.{shipment_phase}
use baen_economy_engine.Stockflow.Advance.{RunResult, advance}

abbrev pub digest : String
digest = "00112233445566778899aabbccddeeff00112233445566778899aabbccddeeff"

-- Stand-ins of the standard library's functions.
abbrev pub prims : Primitives
prims = record { sha256 = λ cs. digest; uuid5 = λ cs. "u"; loads = λ cs. none }

abbrev pub grain : Commodity
grain = record {
  commodity_id = "grain";
  name = "Grain";
  unit = "bushel";
  base_price = some (whole 2);
  elasticity = fraction 5 1;
  floor_factor = fraction 5 1;
  ceiling_factor = whole 2;
  market_price_enabled = true;
}

abbrev pub flour : Commodity
flour = record {
  commodity_id = "flour";
  name = "Flour";
  unit = "sack";
  base_price = none;
  elasticity = whole 0;
  floor_factor = whole 1;
  ceiling_factor = whole 1;
  market_price_enabled = false;
}

abbrev pub mill : Recipe
mill = record {
  recipe_id = "mill";
  site_id = "farm";
  entity_id = "miller";
  inputs = ("grain", whole 2) ∷ [];
  outputs = ("flour", whole 1) ∷ [];
  labor_per_batch = whole 1;
  max_batches = whole 3;
  priority = pos 1;
}

abbrev pub road : Route
road = record {
  route_id = "road";
  origin_site_id = "farm";
  destination_site_id = "town";
  commodity_id = "grain";
  capacity_per_period = whole 4;
  travel_periods = 1;
  loss_rate = fraction 1 1;
}

abbrev pub economy : EconomyModel
economy = record {
  commodities = grain ∷ flour ∷ [];
  sites =
      record { site_id = "farm"; name = "Farm"; labor_capacity = whole 5 }
      ∷ record { site_id = "town"; name = "Town"; labor_capacity = whole 0 }
      ∷ [];
  recipes = mill ∷ [];
  routes = road ∷ [];
  model_version = "m1";
}

abbrev pub farm_grain : InventoryPosition
farm_grain = record {
  site_id = "farm";
  commodity_id = "grain";
  quantity = whole 20;
  reserved_quantity = whole 1;
}

abbrev pub lot_due : TransitLot
lot_due = record {
  shipment_id = "s1";
  route_id = "road";
  commodity_id = "grain";
  origin_site_id = "farm";
  destination_site_id = "town";
  quantity = whole 10;
  arrival_period_index = 1;
  loss_rate = fraction 1 1;
}

abbrev pub lot_later : TransitLot
lot_later = record lot_due { shipment_id = "s2"; arrival_period_index = 2 }

abbrev pub opening : Snapshot
opening = record {
  timeline_id = "trial";
  period_index = 0;
  campaign_ordinal = pos 100;
  campaign_date = "Mirtul 1372";
  ruleset_version = "r1";
  ruleset_hash = digest;
  model_hash = digest;
  input_hash = none;
  parent_hash = none;
  inventories = farm_grain ∷ [];
  prices = [];
  transit = lot_due ∷ lot_later ∷ [];
  applied_event_refs = [];
  applied_shipment_ids = "s1" ∷ "s2" ∷ [];
  snapshot_id = "snapshot:0011223344556677";
  state_hash = digest;
}

abbrev pub plan : RunPlan
plan = record {
  period_index = 1;
  campaign_ordinal = pos 130;
  campaign_date = "Kythorn 1372";
  production_orders =
      record { recipe_id = "mill"; requested_batches = whole 9; authorizing_event_id = none } ∷ [];
  shipment_orders =
      record {
        shipment_id = "s3";
        route_id = "road";
        commodity_id = "grain";
        requested_quantity = whole 6;
        source_ref = "ledger";
        authorizing_event_id = none;
      }
      ∷ [];
  needs =
      record {
        site_id = "town";
        commodity_id = "grain";
        requested_quantity = whole 12;
        priority = pos 1;
        authorizing_event_id = none;
      }
      ∷ [];
  authorizing_events = [];
  simulation_assignments = [];
}

-- The value of a run; the other argument is for a run that raised.
abbrev pub value_of {ℓ} : {A : Type ℓ} → A → Sim A → A
value_of default (ok a) = a
value_of default (err e) = default

abbrev pub start : Books
start = opening_books economy opening

-- The books after each loop of the run.
abbrev pub arrived : Books
arrived = value_of start (arrivals 1 opening.transit start)

abbrev pub produced : Books
produced = value_of start (production_phase economy plan.production_orders arrived)

abbrev pub shipped : Books
shipped =
    value_of start
      (shipment_phase economy 1 opening.applied_shipment_ids plan.shipment_orders produced)

abbrev pub result : RunResult
result =
    value_of
      (record {
        snapshot = opening;
        flows = [];
        production = [];
        shipments = [];
        needs = [];
        labor_used = [];
        conservation = [];
      })
      (advance prims economy opening plan none)
