-- ===== src/Stockflow/Verify.antt =====
-- stockflow.py: `Snapshot.verify`, `EconomyModel.validate`, `EconomyModel.validate_snapshot` and
-- `_seal`.
pub mod Facts
use baen_economy_engine.Prelude.{
  ℕ, zero, suc, Bool, true, false, ◌&&◌, ◌||◌, not, Option, none, some, String, List, [], ◌∷◌, ◌++◌,
  map, leb, ltb, ◌==◌, str_eq, Result, ok, err, ◌>>=◌, ◌>>◌, raise_if, if◌then◌else◌, all, any,
}
use baen_economy_engine.Prelude.Dict.{Dict, Eq, contains, lookup, string_eq, pair_eq}
use baen_economy_engine.Prelude.Text.{codes, has_text}
use baen_economy_engine.Decimal.Number.{Decimal, zero_dec, lt_dec, le_dec, eq_dec}
use baen_economy_engine.Events.Types.{Primitives}
use baen_economy_engine.Stockflow.Types.{
  Sim, SimulationError, missing_text, bad_hash, bad_parent, hash_mismatch, negative_inventory,
  reservation_exceeds, duplicate_id, bad_lot, bad_price, unknown_site, unknown_commodity,
  unknown_route, route_mismatch, lot_already_due, Commodity, Site, Recipe, Route, InventoryPosition,
  PricePosition, TransitLot, Snapshot, EconomyModel,
}
use baen_economy_engine.Stockflow.Books.{StockKey, commodities_of, sites_of, routes_of}
use baen_economy_engine.Stockflow.Hashing.{is_sha256, snapshot_hash, snapshot_id_of}

-- `len(values) != len(set(values))`
unfoldable pub has_duplicate {ℓ} : {A : Type ℓ} ⦃e : Eq A⦄ → List A → Bool
has_duplicate [] = false
has_duplicate (x ∷ xs) = contains x xs || has_duplicate xs

abbrev is_bad_hash : Option String → Bool
is_bad_hash none = false
is_bad_hash (some hash) = not (is_sha256 hash)

-- The parent hash by the period.
check_parent : ℕ → Option String → Sim (Unit {0})
check_parent zero none = ok tt
check_parent zero (some hash) = err bad_parent
check_parent (suc n) none = err bad_parent
check_parent (suc n) (some hash) = raise_if (not (is_sha256 hash)) bad_parent

check_positions : List InventoryPosition → Sim (Unit {0})
check_positions [] = ok tt
check_positions (p ∷ ps) = do
  raise_if (lt_dec p.quantity zero_dec || lt_dec p.reserved_quantity zero_dec) negative_inventory
  raise_if (lt_dec p.quantity p.reserved_quantity) reservation_exceeds
  check_positions ps

starts_with : List ℕ → List ℕ → Bool
starts_with [] ys = true
starts_with (x ∷ xs) [] = false
starts_with (x ∷ xs) (y ∷ ys) = x == y && starts_with xs ys

check_refs : List (String × String) → Sim (Unit {0})
unfolding starts_with
check_refs [] = ok tt
check_refs ((id, hash) ∷ refs) = do
  raise_if (not (starts_with (codes "event:") (codes id)) || not (is_sha256 hash)) bad_hash
  check_refs refs

check_lots : List TransitLot → Sim (Unit {0})
check_lots [] = ok tt
check_lots (lot ∷ lots) = do
  raise_if (ltb lot.arrival_period_index 1) bad_lot
  raise_if (lt_dec lot.quantity zero_dec) bad_lot
  check_lots lots

abbrev pub position_keys : List InventoryPosition → List StockKey
position_keys [] = []
position_keys (p ∷ ps) = (p.site_id, p.commodity_id) ∷ position_keys ps

abbrev pub price_keys : List PricePosition → List StockKey
price_keys [] = []
price_keys (p ∷ ps) = (p.site_id, p.commodity_id) ∷ price_keys ps

abbrev pub ref_ids : List (String × String) → List String
ref_ids [] = []
ref_ids ((id, hash) ∷ refs) = id ∷ ref_ids refs

-- What `verify` checks of the contents, after the hash.
verify_contents : Snapshot → Sim (Unit {0})
unfolding check_positions check_refs check_lots
verify_contents s = do
  check_positions s.inventories
  raise_if (has_duplicate (position_keys s.inventories)) duplicate_id
  raise_if (has_duplicate (price_keys s.prices)) duplicate_id
  raise_if (has_duplicate (ref_ids s.applied_event_refs)) duplicate_id
  check_refs s.applied_event_refs
  raise_if (has_duplicate s.applied_shipment_ids) duplicate_id
  check_lots s.transit

-- `_unique_ids` and the checks of `validate`
known_id : List String → List String → Bool
known_id ids [] = true
known_id ids (id ∷ rest) = contains id ids && known_id ids rest

abbrev part_ids : List (String × Decimal) → List String
part_ids [] = []
part_ids ((id, _) ∷ rest) = id ∷ part_ids rest

check_recipes : List String → List String → List Recipe → Sim (Unit {0})
unfolding known_id
check_recipes sites commodities [] = ok tt
check_recipes sites commodities (r ∷ rs) = do
  raise_if (not (contains r.site_id sites)) unknown_site
  raise_if (not (known_id commodities (part_ids (r.inputs ++ r.outputs)))) unknown_commodity
  check_recipes sites commodities rs

check_routes : List String → List String → List Route → Sim (Unit {0})
check_routes sites commodities [] = ok tt
check_routes sites commodities (r ∷ rs) = do
  raise_if (not (contains r.origin_site_id sites) || not (contains r.destination_site_id sites))
      unknown_site
  raise_if (not (contains r.commodity_id commodities)) unknown_commodity
  check_routes sites commodities rs

-- `EconomyModel.validate`
unfoldable pub validate : EconomyModel → Sim (Unit {0})
unfolding check_recipes check_routes
validate m = do
  let commodities = map (λ (c : Commodity). c.commodity_id) m.commodities
  let sites = map (λ (s : Site). s.site_id) m.sites
  raise_if (not (has_text m.model_version)) missing_text
  raise_if (has_duplicate commodities) duplicate_id
  raise_if (has_duplicate sites) duplicate_id
  raise_if (has_duplicate (map (λ (r : Recipe). r.recipe_id) m.recipes)) duplicate_id
  raise_if (has_duplicate (map (λ (r : Route). r.route_id) m.routes)) duplicate_id
  check_recipes sites commodities m.recipes
  check_routes sites commodities m.routes

is_absent {ℓ} : {A : Type ℓ} → Option A → Bool
is_absent none = true
is_absent (some _) = false

is_unknown : EconomyModel → String → String → Bool
unfolding is_absent
is_unknown m site commodity =
    is_absent (lookup site (sites_of m)) || is_absent (lookup commodity (commodities_of m))

known_positions : EconomyModel → List InventoryPosition → Sim (Unit {0})
unfolding is_unknown
known_positions m [] = ok tt
known_positions m (p ∷ ps) = do
  raise_if (is_unknown m p.site_id p.commodity_id) unknown_site
  known_positions m ps

known_prices : EconomyModel → List PricePosition → Sim (Unit {0})
unfolding is_unknown
known_prices m [] = ok tt
known_prices m (p ∷ ps) = do
  raise_if (is_unknown m p.site_id p.commodity_id) unknown_site
  raise_if (le_dec p.amount zero_dec) bad_price
  known_prices m ps

-- A lot against the contract of its route.
check_contract : Option Route → TransitLot → Sim (Unit {0})
check_contract none lot = err unknown_route
check_contract (some route) lot =
    raise_if
      (not (str_eq lot.commodity_id route.commodity_id)
        || not (str_eq lot.origin_site_id route.origin_site_id)
        || not (str_eq lot.destination_site_id route.destination_site_id)
        || not (eq_dec lot.loss_rate route.loss_rate))
      route_mismatch

-- The loop over the lots, with the shipment ids seen so far.
known_lots : EconomyModel → ℕ → List String → List TransitLot → Sim (Unit {0})
unfolding check_contract
known_lots m period seen [] = ok tt
known_lots m period seen (lot ∷ lots) = do
  raise_if (contains lot.shipment_id seen) duplicate_id
  check_contract (lookup lot.route_id (routes_of m)) lot
  raise_if (leb lot.arrival_period_index period) lot_already_due
  known_lots m period (lot.shipment_id ∷ seen) lots

module _ (prims : Primitives) where
  -- `Snapshot.verify`
  unfoldable pub verify : Snapshot → Sim (Unit {0})
  unfolding check_parent verify_contents
  verify s = do
    raise_if (not (has_text s.timeline_id) || not (has_text s.campaign_date)) missing_text
    raise_if (not (is_sha256 s.ruleset_hash)) bad_hash
    raise_if (not (is_sha256 s.model_hash)) bad_hash
    raise_if (is_bad_hash s.input_hash) bad_hash
    check_parent s.period_index s.parent_hash
    let expected = snapshot_hash prims s
    raise_if
        (not (str_eq expected s.state_hash) || not (str_eq s.snapshot_id (snapshot_id_of expected)))
        hash_mismatch
    verify_contents s

  -- `EconomyModel.validate_snapshot`
  unfoldable pub validate_snapshot : EconomyModel → Snapshot → Sim (Unit {0})
  unfolding verify validate known_positions known_prices known_lots
  validate_snapshot m s = do
    validate m
    verify s
    known_positions m s.inventories
    known_prices m s.prices
    known_lots m s.period_index [] s.transit

  -- `_seal`
  unfoldable pub seal : Snapshot → Sim Snapshot
  unfolding verify
  seal s = do
    let digest = snapshot_hash prims s
    let sealed = record s { snapshot_id = snapshot_id_of digest; state_hash = digest }
    verify sealed
    ok sealed
