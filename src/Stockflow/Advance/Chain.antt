-- ===== src/Stockflow/Advance/Chain.antt =====
-- stockflow.py: what a run that returns establishes.
use mathlib.Core.List.{Perm}
use baen_economy_engine.Prelude.{
  ◌+◌, ◌≡◌, sym, ap, ◌∙◌, subst, arith, false, not, Option, some, String, List, ◌++◌, ◌==◌, ==_iff,
  str_eq, eq_iff, ok, >>=-eq-ok, ok-inj, raise_if-ok, All,
}
use baen_economy_engine.Prelude.Int.{leb_ℤ, ◌<ℤ◌}
use baen_economy_engine.Prelude.Dict.{Dict, string_eq}
use baen_economy_engine.Decimal.Number.{Decimal}
use baen_economy_engine.Events.Types.{Primitives}
use baen_economy_engine.Events.Store.{EventStore}
use baen_economy_engine.Stockflow.Types.{
  model_mismatch, ruleset_mismatch, wrong_period, ordinal_not_later, event_applied,
  InventoryPosition, RunPlan, Snapshot, EconomyModel,
}
use baen_economy_engine.Stockflow.Sorting.{sorted-Perm}
use baen_economy_engine.Stockflow.Books.{Books}
use baen_economy_engine.Stockflow.Hashing.{
  ruleset_hash, validated_event_refs, plan_hash, compare_ref, snapshot_hash,
}
use baen_economy_engine.Stockflow.Verify.{validate_snapshot, seal}
use baen_economy_engine.Stockflow.Verify.Facts.{
  IsSound, IsLater, validate_snapshot-IsSound, seal-verify,
}
use baen_economy_engine.Stockflow.Closing.{
  check_books, closing_inventory, commodity_totals, commodity_ids, conservation,
}
use baen_economy_engine.Stockflow.Arrivals.{compare_lot}
use baen_economy_engine.Stockflow.Closing.Totals.{holdings}
use baen_economy_engine.Stockflow.Closing.Conserved.{
  IsBalanced, check_books-IsBalanced, IsConserved, conservation-IsConserved,
}
use baen_economy_engine.Stockflow.Advance.{
  RunResult, run_phases, child_of, is_replayed, model_hash, check_timeline, admit, close, advance,
}

module _ (prims : Primitives) (m : EconomyModel) (parent : Snapshot) (p : RunPlan) where
  abbrev Admitted : Type 0
  Admitted = String × (String × List (String × String))

  -- The checks before the loops.
  admit-Follows :
      (store : Option EventStore) (a : Admitted)
      → admit prims m parent p store ≡ ok a
      → (p.period_index ≡ parent.period_index + 1)
        × (parent.campaign_ordinal <ℤ p.campaign_ordinal)
        × (validated_event_refs prims p.authorizing_events ≡ ok a.1.1)
        × (is_replayed parent a.1.1 ≡ false)
        × (parent.model_hash ≡ a.0)
  unfolding admit
  admit-Follows store a h =
      let (_, _, h1) = >>=-eq-ok (validate_snapshot prims m parent) _ h in
      let (hash, _, h2) = >>=-eq-ok (model_hash prims m) _ h1 in
      let (same, h3) = raise_if-ok (not (str_eq parent.model_hash hash)) model_mismatch _ h2 in
      let (rules, _, h4) = >>=-eq-ok (ruleset_hash prims parent.ruleset_version) _ h3 in
      let (_, h5) = raise_if-ok (not (str_eq parent.ruleset_hash rules)) ruleset_mismatch _ h4 in
      let (period, h6) =
        raise_if-ok (not (p.period_index == parent.period_index + 1)) wrong_period _ h5 in
      let (ordinal, h7) =
        raise_if-ok (leb_ℤ p.campaign_ordinal parent.campaign_ordinal) ordinal_not_later _ h6 in
      let (refs, e, h8) = >>=-eq-ok (validated_event_refs prims p.authorizing_events) _ h7 in
      let (fresh, h9) = raise_if-ok (is_replayed parent refs) event_applied _ h8 in
      let (_, _, h10) = >>=-eq-ok (check_timeline prims m parent p store) _ h9 in
      let (input, _, h11) = >>=-eq-ok (plan_hash prims p) _ h10 in
      let result : Path Admitted (hash, (input, refs)) a = ok-inj h11 in
      subst
        (λ (x : Admitted).
          (p.period_index ≡ parent.period_index + 1)
          × (parent.campaign_ordinal <ℤ p.campaign_ordinal)
          × (validated_event_refs prims p.authorizing_events ≡ ok x.1.1)
          × (is_replayed parent x.1.1 ≡ false)
          × (parent.model_hash ≡ x.0))
        result
        (
          (==_iff p.period_index (parent.period_index + 1)).0 (ground (arith, period)),
          ground (arith, ordinal),
          e,
          fresh,
          (eq_iff parent.model_hash hash).0 (ground (arith, same)),
        )

  abbrev IsClosed : Admitted → Books → RunResult → Type 0
  IsClosed a b r =
      (inventory : List InventoryPosition) × IsBalanced m b
      × ((id : String)
          → IsConserved (holdings parent.inventories parent.transit) (holdings inventory b.transit)
              b id)
      × (seal prims (child_of parent p a.0 a.1.0 a.1.1 b inventory) ≡ ok r.snapshot)
      × (validate_snapshot prims m r.snapshot ≡ ok tt)

  close-IsClosed :
      (a : Admitted) (opening : Dict String Decimal) (b : Books) (r : RunResult)
      → commodity_totals parent.inventories parent.transit ≡ ok opening
      → close prims m parent p a opening b ≡ ok r
      → IsClosed a b r
  unfolding close
  close-IsClosed a opening b r start h =
      let (_, books, h1) = >>=-eq-ok (check_books m b) _ h in
      let (inventory, _, h2) = >>=-eq-ok (closing_inventory b) _ h1 in
      let (closing, totals, h3) = >>=-eq-ok (commodity_totals inventory b.transit) _ h2 in
      let (residuals, conserved, h4) =
        >>=-eq-ok (conservation opening closing b (commodity_ids opening closing b)) _ h3 in
      let (child, sealed, h5) =
        >>=-eq-ok (seal prims (child_of parent p a.0 a.1.0 a.1.1 b inventory)) _ h4 in
      let (_, valid, h6) = >>=-eq-ok (validate_snapshot prims m child) _ h5 in
      let same : child ≡ r.snapshot = ap (λ (x : RunResult). x.snapshot) (ok-inj h6) in
      (
        inventory,
        check_books-IsBalanced m b books,
        conservation-IsConserved parent.inventories inventory parent.transit opening closing b
            residuals start totals conserved,
        subst (λ x. seal prims (child_of parent p a.0 a.1.0 a.1.1 b inventory) ≡ ok x) same sealed,
        subst (λ x. validate_snapshot prims m x ≡ ok tt) same valid,
      )

  -- The child is the parent's successor.
  abbrev pub IsChild : RunResult → Type 0
  IsChild r =
      (r.snapshot.period_index ≡ parent.period_index + 1)
      × (parent.campaign_ordinal <ℤ r.snapshot.campaign_ordinal)
      × (r.snapshot.parent_hash ≡ some parent.state_hash)
      × (r.snapshot.timeline_id ≡ parent.timeline_id)
      × (r.snapshot.model_hash ≡ parent.model_hash)

  -- The events of the plan are new, and become applied events.
  abbrev pub AppliesOnce : RunResult → Type 0
  AppliesOnce r =
      (refs : List (String × String)) × (validated_event_refs prims p.authorizing_events ≡ ok refs)
      × (is_replayed parent refs ≡ false)
      × Perm r.snapshot.applied_event_refs (parent.applied_event_refs ++ refs)

  seal-IsChild :
      (store : Option EventStore) (a : Admitted) (b : Books) (inventory : List InventoryPosition)
      (r : RunResult)
      → admit prims m parent p store ≡ ok a
      → seal prims (child_of parent p a.0 a.1.0 a.1.1 b inventory) ≡ ok r.snapshot
      → IsChild r × AppliesOnce r
  unfolding child_of
  seal-IsChild store a b inventory r h k =
      let (period, ordinal, refs, fresh, hash) = admit-Follows store a h in
      let same =
        (seal-verify prims (child_of parent p a.0 a.1.0 a.1.1 b inventory) r.snapshot k).0 in
      (
        (
          ap (λ (s : Snapshot). s.period_index) same ∙ period,
          subst (λ n. parent.campaign_ordinal <ℤ n)
              (sym (ap (λ (s : Snapshot). s.campaign_ordinal) same)) ordinal,
          ap (λ (s : Snapshot). s.parent_hash) same,
          ap (λ (s : Snapshot). s.timeline_id) same,
          ap (λ (s : Snapshot). s.model_hash) same ∙ sym hash,
        ),
        (
          a.1.1,
          refs,
          fresh,
          subst (λ xs. Perm xs (parent.applied_event_refs ++ a.1.1))
              (sym (ap (λ (s : Snapshot). s.applied_event_refs) same))
              (sorted-Perm compare_ref (parent.applied_event_refs ++ a.1.1)),
        ),
      )

  -- A run that returns gives a child of its parent: one period on, at a later ordinal, on the same
  -- timeline and model, with the parent's hash as parent hash. The plan's events are sound and none of
  -- them was applied before; the child's applied events are the parent's and these. The child carries the
  -- hash of its contents, is sound, and has only lots in transit that arrive later.
  pub advance-IsChild :
      (store : Option EventStore) (r : RunResult)
      → advance prims m parent p store ≡ ok r
      → IsChild r
        × AppliesOnce r
        × (r.snapshot.state_hash ≡ snapshot_hash prims r.snapshot)
        × IsSound r.snapshot
        × All (IsLater r.snapshot.period_index) r.snapshot.transit
  unfolding advance
  advance-IsChild store r h =
      let (a, admitted, h1) = >>=-eq-ok (admit prims m parent p store) _ h in
      let (opening, start, h2) =
        >>=-eq-ok (commodity_totals parent.inventories parent.transit) _ h1 in
      let (b, _, h3) = >>=-eq-ok (run_phases m parent p) _ h2 in
      let (inventory, _, _, sealed, valid) = close-IsClosed a opening b r start h3 in
      let (child, once) = seal-IsChild store a b inventory r admitted sealed in
      let (hash, sound, later) = validate_snapshot-IsSound prims m r.snapshot valid in
      (child, once, hash, sound, later)

  -- A run that returns has books, made by its loops, in which no stock and no labor is below zero, every
  -- reservation is covered and no route is used beyond its capacity. The child has the lots of these
  -- books in transit. And for every commodity whatsoever: the sum of the parent's stock and lots of it,
  -- plus what is produced, less what recipes, needs and routes take, less the sum of the child's stock
  -- and lots of it, comes to zero in the engine's arithmetic.
  pub advance-IsConserved :
      (store : Option EventStore) (r : RunResult)
      → advance prims m parent p store ≡ ok r
      → (b : Books) × (run_phases m parent p ≡ ok b)
        × IsBalanced m b
        × Perm r.snapshot.transit b.transit
        × ((id : String)
            → IsConserved
                (holdings parent.inventories parent.transit)
                (holdings r.snapshot.inventories b.transit)
                b
                id)
  unfolding advance child_of
  advance-IsConserved store r h =
      let (a, _, h1) = >>=-eq-ok (admit prims m parent p store) _ h in
      let (opening, start, h2) =
        >>=-eq-ok (commodity_totals parent.inventories parent.transit) _ h1 in
      let (b, run, h3) = >>=-eq-ok (run_phases m parent p) _ h2 in
      let (inventory, balanced, conserved, sealed, _) = close-IsClosed a opening b r start h3 in
      let same =
        (seal-verify prims (child_of parent p a.0 a.1.0 a.1.1 b inventory) r.snapshot sealed).0 in
      (
        b,
        run,
        balanced,
        subst (λ xs. Perm xs b.transit) (sym (ap (λ (s : Snapshot). s.transit) same))
            (sorted-Perm compare_lot b.transit),
        λ id.
            subst
              (λ ps.
                IsConserved (holdings parent.inventories parent.transit) (holdings ps b.transit) b
                  id)
              (sym (ap (λ (s : Snapshot). s.inventories) same)) (conserved id),
      )
