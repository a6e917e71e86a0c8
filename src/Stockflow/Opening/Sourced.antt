-- ===== src/Stockflow/Opening/Sourced.antt =====
-- stockflow.py: the opening of the actual timeline and its one event.
use baen_economy_engine.Prelude.{
  ◌≡◌, refl, arith, true, ◌||◌, not, Option, none, some, List, [], ◌∷◌, str_eq, eq_iff, ok,
  >>=-eq-ok, raise_if-ok,
}
use baen_economy_engine.Prelude.Int.{eqb_ℤ}
use baen_economy_engine.Json.{canonical_json}
use baen_economy_engine.Events.Types.{Primitives, EventEnvelope, may_mutate_actual}
use baen_economy_engine.Events.Envelope.{codes_eq, codes_eq_iff}
use baen_economy_engine.Events.Store.{EventStore, contains_active}
use baen_economy_engine.Stockflow.Types.{unauthorised, Snapshot, EconomyModel}
use baen_economy_engine.Stockflow.Opening.{
  OpeningInput, materialized, opening_payload, validate_opening_payload, check_opening_event,
  check_opening_events, has_none, with_opening_store, authorize_opening, initial_snapshot,
}
use baen_economy_engine.Stockflow.Opening.Root.{open_with-seal, initial_snapshot-open_with}

-- The one event that an opening of the actual timeline rests on.
abbrev pub IsOpenedBy : OpeningInput → EventStore → EventEnvelope → Type 0
IsOpenedBy i store e =
    (i.opening_events ≡ e ∷ [])
    × (contains_active store e ≡ true)
    × (may_mutate_actual e ≡ true)
    × (e.phase ≡ "source_lock")
    × (e.payload_json ≡ canonical_json (opening_payload i))

one_event :
    (m : EconomyModel) (i : OpeningInput) (store : EventStore) (events : List EventEnvelope)
    → check_opening_events m i store events ≡ ok tt
    → validate_opening_payload i events ≡ ok tt
    → (e : EventEnvelope) × (events ≡ e ∷ [])
      × (contains_active store e ≡ true)
      × (may_mutate_actual e ≡ true)
      × (e.phase ≡ "source_lock")
      × (e.payload_json ≡ canonical_json (opening_payload i))
unfolding check_opening_events check_opening_event validate_opening_payload
one_event m i store [] h k = cc
one_event m i store (e ∷ f ∷ events) h k = cc
one_event m i store (e ∷ []) h k =
    let (_, h1, _) = >>=-eq-ok (check_opening_event m i store e) _ h in
    let (mutates, h2) =
      raise_if-ok
        (not (may_mutate_actual e) || not (eqb_ℤ e.campaign_date.ordinal i.campaign_ordinal))
        unauthorised _ h1 in
    let (_, h3) =
      raise_if-ok (not (str_eq e.campaign_date.label i.campaign_date)) unauthorised _ h2 in
    let (active, _) = raise_if-ok (not (contains_active store e)) unauthorised _ h3 in
    let (kind, k1) =
      raise_if-ok (not (str_eq e.phase "source_lock") || not (str_eq e.event_type "stock.opening"))
        unauthorised _ k in
    let payload : codes_eq e.payload_json (canonical_json (opening_payload i)) ≡ true =
      ground (arith, k1) in
    (
      e,
      refl,
      ground (arith, active),
      ground (arith, mutates),
      (eq_iff e.phase "source_lock").0 (ground (arith, kind)),
      (codes_eq_iff e.payload_json (canonical_json (opening_payload i))).0 payload,
    )

with_opening_store-IsOpenedBy :
    (m : EconomyModel) (i : OpeningInput) (store : Option EventStore)
    → with_opening_store m i store ≡ ok tt
    → (s : EventStore) × (e : EventEnvelope) × (store ≡ some s) × IsOpenedBy i s e
unfolding with_opening_store
with_opening_store-IsOpenedBy m i none h = cc
with_opening_store-IsOpenedBy m i (some s) h =
    let (_, checked, payload) = >>=-eq-ok (check_opening_events m i s i.opening_events) _ h in
    let (e, one, active, mutates, phase, exact) =
      one_event m i s i.opening_events checked payload in
    (s, e, refl, (one, active, mutates, phase, exact))

authorize_opening-IsOpenedBy :
    (m : EconomyModel) (i : OpeningInput) (store : Option EventStore)
    → i.timeline_id ≡ "actual"
    → authorize_opening m i store ≡ ok tt
    → (s : EventStore) × (e : EventEnvelope) × (store ≡ some s) × IsOpenedBy i s e
unfolding authorize_opening
authorize_opening-IsOpenedBy m i store actual h =
    let h1 = rw ((eq_iff i.timeline_id "actual").1 actual) at h in
    let (_, h2) = raise_if-ok (has_none i.opening_events) unauthorised _ h1 in
    with_opening_store-IsOpenedBy m i store h2

-- An opening of the actual timeline that is returned had a store, and came with exactly one event: an
-- active source lock there that may change the actual history, whose payload is exactly the canonical
-- text of the whole opening state in order.
pub initial_snapshot-IsOpenedBy :
    (prims : Primitives) (m : EconomyModel) (i : OpeningInput) (store : Option EventStore)
    (s : Snapshot)
    → i.timeline_id ≡ "actual"
    → initial_snapshot prims m i store ≡ ok s
    → (t : EventStore) × (e : EventEnvelope) × (store ≡ some t) × IsOpenedBy (materialized i) t e
unfolding materialized
initial_snapshot-IsOpenedBy prims m i store s actual h =
    let opened =
      open_with-seal prims m i store s (materialized i)
        (initial_snapshot-open_with prims m i store s h) in
    authorize_opening-IsOpenedBy m (materialized i) store actual opened.0
