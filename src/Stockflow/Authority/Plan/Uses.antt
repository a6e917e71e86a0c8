-- ===== src/Stockflow/Authority/Plan/Uses.antt =====
-- stockflow.py: how a plan on the actual timeline uses its events.
use baen_economy_engine.Prelude.{
  ℕ, ◌≡◌, refl, sym, ap, subst, arith, true, false, not, Option, none, some, String, List, [], ◌∷◌,
  ◌++◌, str_eq, eq_iff, ok, >>=-eq-ok, ok-inj, raise_if-ok, Bool-cases, inl, inr,
}
use Prim.Native.String.{◌++◌ as append}
use baen_economy_engine.Prelude.Dict.{Dict, contains, lookup, string_eq}
use baen_economy_engine.Json.{Value, canonical_json}
use baen_economy_engine.Domain.Labels.{SimulationMode}
use baen_economy_engine.Events.Types.{Primitives, EventEnvelope}
use baen_economy_engine.Events.Envelope.{codes_eq, codes_eq_iff}
use baen_economy_engine.Stockflow.Types.{
  unauthorised, ProductionOrder, ShipmentOrder, Need, RunPlan,
}
use baen_economy_engine.Stockflow.Authority.{
  Demand, given, or_else, check_subject, authority_of, is_object, require_event_payload,
  authorize_id, authorize,
}
use baen_economy_engine.Stockflow.Authority.Plan.{
  production_payload, shipment_payload, need_payload,
}

-- A change that a plan asks for: the event it names, the phase and the payload it must have.
pub record Mutation : Type 0 where
  pub event_id : Option String
  pub phase : String
  pub payload : Value

unfoldable pub production_mutations : List ProductionOrder → List Mutation
unfolding production_payload
production_mutations [] = []
production_mutations (o ∷ orders) =
    record {
      event_id = o.authorizing_event_id;
      phase = "production";
      payload = production_payload o;
    }
    ∷ production_mutations orders

unfoldable pub shipment_mutations : List ShipmentOrder → List Mutation
unfolding shipment_payload
shipment_mutations [] = []
shipment_mutations (o ∷ orders) =
    record { event_id = o.authorizing_event_id; phase = "shipment"; payload = shipment_payload o }
    ∷ shipment_mutations orders

unfoldable pub need_mutations : List Need → List Mutation
unfolding need_payload
need_mutations [] = []
need_mutations (n ∷ needs) =
    record { event_id = n.authorizing_event_id; phase = "consumption"; payload = need_payload n }
    ∷ need_mutations needs

unfoldable pub mutations_of : RunPlan → List Mutation
unfolding production_mutations shipment_mutations need_mutations
mutations_of p =
    production_mutations p.production_orders
    ++ (shipment_mutations p.shipment_orders ++ need_mutations p.needs)

-- The mutation is the one that this event, under this id, was made for.
abbrev pub IsAuthorizedBy : Dict String EventEnvelope → Mutation → String → EventEnvelope → Type 0
IsAuthorizedBy events μ id e =
    (μ.event_id ≡ some id)
    × (lookup id events ≡ some e)
    × (e.phase ≡ μ.phase)
    × (e.payload_json ≡ canonical_json μ.payload)

-- The mutations use up one event each, none of them used before.
abbrev pub Uses : Dict String EventEnvelope → List Mutation → List String → List String → Type 0
Uses events [] used used' = used ≡ used'
Uses events (μ ∷ rest) used used' =
    (id : String) × (e : EventEnvelope) × (contains id used ≡ false)
    × IsAuthorizedBy events μ id e
    × Uses events rest (id ∷ used) used'

pub Uses-append :
    (events : Dict String EventEnvelope) (xs ys : List Mutation) (u v w : List String)
    → Uses events xs u v
    → Uses events ys v w
    → Uses events (xs ++ ys) u w
Uses-append events [] ys u v w h k = subst (λ t. Uses events ys t w) (sym h) k
Uses-append events (x ∷ xs) ys u v w (id, e, fresh, by, h) k =
    (id, e, fresh, by, Uses-append events xs ys (id ∷ u) v w h k)

given-some : (o : Option String) (id : String) → given o ≡ some id → o ≡ some id
given-some none id h = cc
given-some (some s) id h = elim (Bool-cases (str_eq s "")) [
  | inl e ↦ absurd (ground (arith, e))
  | inr e ↦ ground (arith, e)
]

codes_eq_sound : (xs ys : List ℕ) → codes_eq xs ys ≡ true → xs ≡ ys
codes_eq_sound xs ys h = (codes_eq_iff xs ys).0 h

module _ (prims : Primitives) (events : Dict String EventEnvelope)
    (assignments : Dict String SimulationMode) where
  authority_of-found :
      (id : String) (o : Option EventEnvelope) (d : Demand) (used : List String) (e : EventEnvelope)
      → authority_of assignments id o d used ≡ ok e
      → (o ≡ some e) × (e.phase ≡ d.phase) × (contains id used ≡ false)
  unfolding authority_of
  authority_of-found id none d used e h = cc
  authority_of-found id (some found) d used e h =
      let (phase, h1) = raise_if-ok (not (str_eq found.phase d.phase)) unauthorised _ h in
      let (_, h2) =
        raise_if-ok (not (str_eq found.event_type (append "stock." d.phase))) unauthorised _ h1 in
      let (_, _, h3) =
        >>=-eq-ok
          (check_subject assignments
            (given (or_else (given d.expected_entity_id) found.subject_entity_id)) found d)
          _ h2 in
      let (fresh, h4) = raise_if-ok (contains id used) unauthorised _ h3 in
      let same : found ≡ e = ok-inj h4 in
      (
        ap some same,
        subst (λ (x : EventEnvelope). x.phase ≡ d.phase) same
            ((eq_iff found.phase d.phase).0 (ground (arith, phase))),
        fresh,
      )

  authorize_id-Uses :
      (o : Option String) (d : Demand) (expected : Value) (used used' : List String)
      → authorize_id prims events assignments o d expected used ≡ ok used'
      → (id : String) × (e : EventEnvelope) × (o ≡ some id)
        × (contains id used ≡ false)
        × (lookup id events ≡ some e)
        × (e.phase ≡ d.phase)
        × (e.payload_json ≡ canonical_json expected)
        × ((id ∷ used) ≡ used')
  unfolding authorize_id require_event_payload
  authorize_id-Uses none d expected used used' h = cc
  authorize_id-Uses (some id) d expected used used' h =
      let (e, e1, h1) = >>=-eq-ok (authority_of assignments id (lookup id events) d used) _ h in
      let (found, phase, fresh) = authority_of-found id (lookup id events) d used e e1 in
      let (_, e2, h2) = >>=-eq-ok (require_event_payload prims e expected) _ h1 in
      let (_, e3) = raise_if-ok (not (is_object (prims.loads e.payload_json))) unauthorised _ e2 in
      let payload : codes_eq e.payload_json (canonical_json expected) ≡ true = ground arith in
      (
        id,
        e,
        refl,
        fresh,
        found,
        phase,
        codes_eq_sound e.payload_json (canonical_json expected) payload,
        ok-inj h2,
      )

  pub authorize-Uses :
      (d : Demand) (expected : Value) (rest : List Mutation) (used used' used'' : List String)
      → authorize prims events assignments d expected used ≡ ok used'
      → Uses events rest used' used''
      → Uses events
          (record { event_id = d.event_id; phase = d.phase; payload = expected } ∷ rest)
          used
          used''
  unfolding authorize
  authorize-Uses d expected rest used used' used'' h k =
      let (id, e, o, fresh, found, phase, payload, same) =
        authorize_id-Uses (given d.event_id) d expected used used' h in
      (
        id,
        e,
        fresh,
        (given-some d.event_id id o, found, phase, payload),
        subst (λ t. Uses events rest t used'') (sym same) k,
      )
