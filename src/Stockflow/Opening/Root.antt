-- ===== src/Stockflow/Opening/Root.antt =====
-- stockflow.py: what an opening snapshot that is returned is like.
use mathlib.Core.List.{Perm}
use baen_economy_engine.Prelude.{
  ◌≡◌, sym, ap, subst, not, Option, none, String, List, ok, >>=-eq-ok, ok-inj, raise_if-ok, All,
}
use baen_economy_engine.Prelude.Text.{has_text}
use baen_economy_engine.Json.{obj, field, end}
use baen_economy_engine.Events.Types.{Primitives}
use baen_economy_engine.Events.Store.{EventStore}
use baen_economy_engine.Stockflow.Types.{missing_text, Snapshot, EconomyModel}
use baen_economy_engine.Stockflow.Sorting.{sorted-Perm}
use baen_economy_engine.Stockflow.Arrivals.{compare_lot}
use baen_economy_engine.Stockflow.Values.{list_value, ref_value}
use baen_economy_engine.Stockflow.Hashing.{
  canonical_hash, ruleset_hash, validated_event_refs, snapshot_hash,
}
use baen_economy_engine.Stockflow.Verify.{validate_snapshot, seal}
use baen_economy_engine.Stockflow.Verify.Facts.{
  IsSound, IsLater, validate_snapshot-IsSound, seal-verify,
}
use baen_economy_engine.Stockflow.Closing.{compare_position, compare_price}
use baen_economy_engine.Stockflow.Advance.{model_hash}
use baen_economy_engine.Stockflow.Opening.{
  OpeningInput, materialized, authorize_opening, opening_of, open_with, initial_snapshot,
}

-- The snapshot is the root of a chain, over the state that was given.
abbrev pub IsRoot : OpeningInput → Snapshot → Type 0
IsRoot i s =
    (s.timeline_id ≡ i.timeline_id)
    × (s.period_index ≡ 0)
    × (s.parent_hash ≡ none)
    × (s.campaign_ordinal ≡ i.campaign_ordinal)
    × Perm s.inventories i.inventories
    × Perm s.prices i.prices
    × Perm s.transit i.transit

module _ (prims : Primitives) (m : EconomyModel) (i : OpeningInput) (store : Option EventStore)
    (s : Snapshot) where
  pub open_with-seal :
      (j : OpeningInput)
      → open_with prims m j store ≡ ok s
      → (authorize_opening m j store ≡ ok tt)
        × ((rules : String) × (model : String) × (input : String) × (refs : List (String × String))
            × (seal prims (opening_of j rules model input refs) ≡ ok s))
        × (validate_snapshot prims m s ≡ ok tt)
  unfolding open_with
  open_with-seal j h =
      let (_, authorised, h1) = >>=-eq-ok (authorize_opening m j store) _ h in
      let (refs, _, h2) = >>=-eq-ok (validated_event_refs prims j.opening_events) _ h1 in
      let (rules, _, h3) = >>=-eq-ok (ruleset_hash prims j.ruleset_version) _ h2 in
      let (model, _, h4) = >>=-eq-ok (model_hash prims m) _ h3 in
      let input : String =
        canonical_hash prims (obj (field "opening_events" (list_value ref_value refs) end)) in
      let (sealed, e, h5) = >>=-eq-ok (seal prims (opening_of j rules model input refs)) _ h4 in
      let (_, valid, h6) = >>=-eq-ok (validate_snapshot prims m sealed) _ h5 in
      let same : sealed ≡ s = ok-inj h6 in
      (
        authorised,
        (
          rules,
          model,
          input,
          refs,
          subst (λ x. seal prims (opening_of j rules model input refs) ≡ ok x) same e,
        ),
        subst (λ x. validate_snapshot prims m x ≡ ok tt) same valid,
      )

  pub initial_snapshot-open_with :
      initial_snapshot prims m i store ≡ ok s → open_with prims m (materialized i) store ≡ ok s
  unfolding initial_snapshot
  initial_snapshot-open_with h =
      let (_, h1) = raise_if-ok (not (has_text i.timeline_id)) missing_text _ h in
      let (_, h2) = raise_if-ok (not (has_text i.campaign_date)) missing_text _ h1 in
      let (_, h3) = raise_if-ok (not (has_text i.ruleset_version)) missing_text _ h2 in h3

  -- An opening snapshot that is returned is the root of a chain: period zero, without a parent, on the
  -- timeline and at the ordinal that were given, with the positions, prices and lots that were given.
  -- It carries the hash of its contents, is sound, and has only lots that arrive later.
  pub initial_snapshot-IsRoot :
      initial_snapshot prims m i store ≡ ok s
      → IsRoot i s
        × (s.state_hash ≡ snapshot_hash prims s)
        × IsSound s
        × All (IsLater s.period_index) s.transit
  unfolding materialized opening_of
  initial_snapshot-IsRoot h =
      let (_, (rules, model, input, refs, e), valid) =
        open_with-seal (materialized i) (initial_snapshot-open_with h) in
      let same = (seal-verify prims (opening_of (materialized i) rules model input refs) s e).0 in
      let (hash, sound, later) = validate_snapshot-IsSound prims m s valid in
      (
        (
          ap (λ (x : Snapshot). x.timeline_id) same,
          ap (λ (x : Snapshot). x.period_index) same,
          ap (λ (x : Snapshot). x.parent_hash) same,
          ap (λ (x : Snapshot). x.campaign_ordinal) same,
          subst (λ xs. Perm xs i.inventories) (sym (ap (λ (x : Snapshot). x.inventories) same))
              (sorted-Perm compare_position i.inventories),
          subst (λ xs. Perm xs i.prices) (sym (ap (λ (x : Snapshot). x.prices) same))
              (sorted-Perm compare_price i.prices),
          subst (λ xs. Perm xs i.transit) (sym (ap (λ (x : Snapshot). x.transit) same))
              (sorted-Perm compare_lot i.transit),
        ),
        hash,
        sound,
        later,
      )
