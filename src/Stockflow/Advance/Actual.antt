-- ===== src/Stockflow/Advance/Actual.antt =====
-- stockflow.py: runs of the actual timeline.
use baen_economy_engine.Prelude.{
  ◌≡◌, true, not, Option, some, String, List, [], ok, >>=-eq-ok, raise_if-ok, All, str_eq, eq_iff,
  ◌==◌, ◌+◌,
}
use baen_economy_engine.Prelude.Int.{leb_ℤ}
use baen_economy_engine.Prelude.Dict.{contains, string_eq}
use baen_economy_engine.Events.Types.{Primitives}
use baen_economy_engine.Events.Store.{EventStore}
use baen_economy_engine.Stockflow.Types.{
  model_mismatch, ruleset_mismatch, wrong_period, ordinal_not_later, event_applied, RunPlan,
  Snapshot, EconomyModel,
}
use baen_economy_engine.Stockflow.Hashing.{ruleset_hash, validated_event_refs}
use baen_economy_engine.Stockflow.Verify.{validate_snapshot}
use baen_economy_engine.Stockflow.Authority.{events_of}
use baen_economy_engine.Stockflow.Authority.Plan.{event_ids, validate_actual_plan}
use baen_economy_engine.Stockflow.Authority.Plan.Uses.{mutations_of, Uses}
use baen_economy_engine.Stockflow.Authority.Plan.Bijection.{
  IsActiveAuthority, validate_actual_plan-Uses,
}
use baen_economy_engine.Stockflow.Advance.{
  RunResult, is_replayed, model_hash, check_timeline, admit, advance,
}

module _ (prims : Primitives) (m : EconomyModel) (parent : Snapshot) (p : RunPlan)
    (store : Option EventStore) where
  admit-check_timeline :
      (a : String × (String × List (String × String)))
      → admit prims m parent p store ≡ ok a
      → check_timeline prims m parent p store ≡ ok tt
  unfolding admit
  admit-check_timeline a h =
      let (_, _, h1) = >>=-eq-ok (validate_snapshot prims m parent) _ h in
      let (hash, _, h2) = >>=-eq-ok (model_hash prims m) _ h1 in
      let (_, h3) = raise_if-ok (not (str_eq parent.model_hash hash)) model_mismatch _ h2 in
      let (rules, _, h4) = >>=-eq-ok (ruleset_hash prims parent.ruleset_version) _ h3 in
      let (_, h5) = raise_if-ok (not (str_eq parent.ruleset_hash rules)) ruleset_mismatch _ h4 in
      let (_, h6) =
        raise_if-ok (not (p.period_index == parent.period_index + 1)) wrong_period _ h5 in
      let (_, h7) =
        raise_if-ok (leb_ℤ p.campaign_ordinal parent.campaign_ordinal) ordinal_not_later _ h6 in
      let (refs, _, h8) = >>=-eq-ok (validated_event_refs prims p.authorizing_events) _ h7 in
      let (_, h9) = raise_if-ok (is_replayed parent refs) event_applied _ h8 in
      let (_, checked, _) = >>=-eq-ok (check_timeline prims m parent p store) _ h9 in checked

  actual-check_timeline :
      parent.timeline_id ≡ "actual"
      → check_timeline prims m parent p store ≡ ok tt
      → validate_actual_plan prims m parent p store ≡ ok tt
  unfolding check_timeline
  actual-check_timeline actual h = rw ((eq_iff parent.timeline_id "actual").1 actual) at h

  -- A run of the actual timeline that returns had a store, and its events are active there and may
  -- change the actual history. Each production order, shipment and need of the plan names an event of
  -- the plan with the phase and the exact payload of that mutation; no event serves two of them, and
  -- every event of the plan serves one.
  pub advance-Uses :
      (r : RunResult)
      → parent.timeline_id ≡ "actual"
      → advance prims m parent p store ≡ ok r
      → (s : EventStore) × (used : List String) × (store ≡ some s)
        × All (IsActiveAuthority s) (events_of p)
        × Uses (events_of p) (mutations_of p) [] used
        × All (λ id. contains id used ≡ true) (event_ids (events_of p))
  unfolding advance
  advance-Uses r actual h =
      let (a, admitted, _) = >>=-eq-ok (admit prims m parent p store) _ h in
      validate_actual_plan-Uses prims m parent p store
        (actual-check_timeline actual (admit-check_timeline a admitted))
