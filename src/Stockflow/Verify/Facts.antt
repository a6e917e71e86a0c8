-- ===== src/Stockflow/Verify/Facts.antt =====
-- stockflow.py: what a snapshot that `verify` and `validate_snapshot` accept is like.
use baen_economy_engine.Prelude.{
  ℕ, ◌<◌, ◌≡◌, sym, subst, arith, false, ◌||◌, not, String, List, [], ◌∷◌, leb, str_eq, eq_iff, ok,
  All, >>=-eq-ok, raise_if-ok, ok-inj,
}
use baen_economy_engine.Prelude.Dict.{Eq, contains, lookup, string_eq, pair_eq}
use baen_economy_engine.Prelude.Text.{has_text}
use baen_economy_engine.Decimal.Number.{zero_dec, lt_dec}
use baen_economy_engine.Decimal.Order.{Le, not_lt-le}
use baen_economy_engine.Events.Types.{Primitives}
use baen_economy_engine.Stockflow.Types.{
  missing_text, bad_hash, hash_mismatch, negative_inventory, reservation_exceeds, duplicate_id,
  lot_already_due, InventoryPosition, TransitLot, Snapshot, EconomyModel,
}
use baen_economy_engine.Stockflow.Books.{routes_of}
use baen_economy_engine.Stockflow.Hashing.{is_sha256, snapshot_hash, snapshot_id_of}
use baen_economy_engine.Stockflow.Verify.{
  has_duplicate, check_parent, check_positions, check_refs, verify_contents, position_keys,
  price_keys, ref_ids, known_positions, known_prices, known_lots, check_contract, verify, validate,
  validate_snapshot, seal, is_bad_hash,
}

abbrev pub IsDistinct {ℓ} : {A : Type ℓ} ⦃e : Eq A⦄ → List A → Type 0
IsDistinct [] = Unit
IsDistinct (x ∷ xs) = (contains x xs ≡ false) × IsDistinct xs

pub has_duplicate-IsDistinct {ℓ} :
    {A : Type ℓ} ⦃e : Eq A⦄ (xs : List A) → has_duplicate xs ≡ false → IsDistinct xs
unfolding has_duplicate
has_duplicate-IsDistinct [] h = tt
has_duplicate-IsDistinct (x ∷ xs) h = (ground arith, has_duplicate-IsDistinct xs (ground arith))

-- From zero up to the quantity on hand.
abbrev pub IsReserved : InventoryPosition → Type 0
IsReserved p = Le zero_dec p.reserved_quantity × Le p.reserved_quantity p.quantity

check_positions-IsReserved :
    (ps : List InventoryPosition) → check_positions ps ≡ ok tt → All IsReserved ps
unfolding check_positions
check_positions-IsReserved [] h = tt
check_positions-IsReserved (p ∷ ps) h =
    let (sign, h1) =
      raise_if-ok (lt_dec p.quantity zero_dec || lt_dec p.reserved_quantity zero_dec)
        negative_inventory _ h in
    let (covered, h2) =
      raise_if-ok (lt_dec p.quantity p.reserved_quantity) reservation_exceeds _ h1 in
    (
      (
        not_lt-le p.reserved_quantity zero_dec (ground arith),
        not_lt-le p.quantity p.reserved_quantity covered,
      ),
      check_positions-IsReserved ps h2,
    )

abbrev pub IsLater : ℕ → TransitLot → Type 0
IsLater period lot = period < lot.arrival_period_index

known_lots-IsLater :
    (m : EconomyModel) (period : ℕ) (seen : List String) (lots : List TransitLot)
    → known_lots m period seen lots ≡ ok tt
    → All (IsLater period) lots
unfolding known_lots
known_lots-IsLater m period seen [] h = tt
known_lots-IsLater m period seen (lot ∷ lots) h =
    let (_, h1) = raise_if-ok (contains lot.shipment_id seen) duplicate_id _ h in
    let (_, _, h2) = >>=-eq-ok (check_contract (lookup lot.route_id (routes_of m)) lot) _ h1 in
    let (later, h3) = raise_if-ok (leb lot.arrival_period_index period) lot_already_due _ h2 in
    (ground (arith, later), known_lots-IsLater m period (lot.shipment_id ∷ seen) lots h3)

-- The parts of the contents check.
abbrev pub IsSound : Snapshot → Type 0
IsSound s =
    All IsReserved s.inventories
    × IsDistinct (position_keys s.inventories)
    × IsDistinct (price_keys s.prices)
    × IsDistinct (ref_ids s.applied_event_refs)
    × IsDistinct s.applied_shipment_ids

verify_contents-IsSound : (s : Snapshot) → verify_contents s ≡ ok tt → IsSound s
unfolding verify_contents
verify_contents-IsSound s h =
    let (_, positions, h1) = >>=-eq-ok (check_positions s.inventories) _ h in
    let (keys, h2) = raise_if-ok (has_duplicate (position_keys s.inventories)) duplicate_id _ h1 in
    let (prices, h3) = raise_if-ok (has_duplicate (price_keys s.prices)) duplicate_id _ h2 in
    let (events, h4) =
      raise_if-ok (has_duplicate (ref_ids s.applied_event_refs)) duplicate_id _ h3 in
    let (_, _, h5) = >>=-eq-ok (check_refs s.applied_event_refs) _ h4 in
    let (shipments, _) = raise_if-ok (has_duplicate s.applied_shipment_ids) duplicate_id _ h5 in
    (
      check_positions-IsReserved s.inventories positions,
      has_duplicate-IsDistinct (position_keys s.inventories) keys,
      has_duplicate-IsDistinct (price_keys s.prices) prices,
      has_duplicate-IsDistinct (ref_ids s.applied_event_refs) events,
      has_duplicate-IsDistinct s.applied_shipment_ids shipments,
    )

module _ (prims : Primitives) where
  pub verify-IsSound :
      (s : Snapshot) → verify prims s ≡ ok tt → (s.state_hash ≡ snapshot_hash prims s) × IsSound s
  unfolding verify
  verify-IsSound s h =
      let (_, h1) =
        raise_if-ok (not (has_text s.timeline_id) || not (has_text s.campaign_date)) missing_text _
          h in
      let (_, h2) = raise_if-ok (not (is_sha256 s.ruleset_hash)) bad_hash _ h1 in
      let (_, h3) = raise_if-ok (not (is_sha256 s.model_hash)) bad_hash _ h2 in
      let (_, h4) = raise_if-ok (is_bad_hash s.input_hash) bad_hash _ h3 in
      let (_, _, h5) = >>=-eq-ok (check_parent s.period_index s.parent_hash) _ h4 in
      let expected = snapshot_hash prims s in
      let (same, h6) =
        raise_if-ok
          (not (str_eq expected s.state_hash)
            || not (str_eq s.snapshot_id (snapshot_id_of expected)))
          hash_mismatch _ h5 in
      (sym ((eq_iff expected s.state_hash).0 (ground arith)), verify_contents-IsSound s h6)

  -- A snapshot that a model accepts carries the hash of its own contents, reserves from nothing up to
  -- what is on hand at every position, holds no position, price, applied event or applied shipment
  -- twice, and has only lots in transit that arrive in a later period.
  pub validate_snapshot-IsSound :
      (m : EconomyModel) (s : Snapshot)
      → validate_snapshot prims m s ≡ ok tt
      → (s.state_hash ≡ snapshot_hash prims s) × IsSound s × All (IsLater s.period_index) s.transit
  unfolding validate_snapshot
  validate_snapshot-IsSound m s h =
      let (_, _, h1) = >>=-eq-ok (validate m) _ h in
      let (_, verified, h2) = >>=-eq-ok (verify prims s) _ h1 in
      let (_, _, h3) = >>=-eq-ok (known_positions m s.inventories) _ h2 in
      let (_, _, h4) = >>=-eq-ok (known_prices m s.prices) _ h3 in
      let (hash, sound) = verify-IsSound s verified in
      (hash, sound, known_lots-IsLater m s.period_index [] s.transit h4)

  -- What `_seal` returns is the given snapshot under its own hash, and it verifies.
  pub seal-verify :
      (s sealed : Snapshot)
      → seal prims s ≡ ok sealed
      → (sealed ≡ record s {
        snapshot_id = snapshot_id_of (snapshot_hash prims s);
        state_hash = snapshot_hash prims s;
      })
        × (verify prims sealed ≡ ok tt)
  unfolding seal
  seal-verify s sealed h =
      let digest = snapshot_hash prims s in
      let candidate : Snapshot = record s {
        snapshot_id = snapshot_id_of digest;
        state_hash = digest;
      } in
      let (_, verified, h1) = >>=-eq-ok (verify prims candidate) _ h in
      let same : candidate ≡ sealed = ok-inj h1 in
      (sym same, subst (λ x. verify prims x ≡ ok tt) same verified)
