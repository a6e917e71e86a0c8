-- ===== src/Events/Envelope.antt =====
-- events.py: `EventEnvelope.create`, `validate_integrity` and `integrity_hash`. The hash functions and the JSON reader of the standard library are
-- the parameter `Primitives`.
pub mod RoundTrip
use Prim.Native.String.{◌++◌ as append}
use baen_economy_engine.Prelude.{
  arith, ◌↔◌, ==_iff, refl, inl, inr, Bool-cases, ℕ, ◌≡◌, Bool, true, false, ◌&&◌, ◌||◌, not,
  Option, none, some, String, List, [], ◌∷◌, ltb, ◌==◌, str_eq, Result, ok, err, ◌>>◌, raise_if,
}
use baen_economy_engine.Prelude.Int.{ℤ, pos}
use baen_economy_engine.Prelude.Dict.{string_eq}
use baen_economy_engine.Json.{
  Value, null, int, text, arr, obj, nil, cons, end, field, canonical_json,
}
use baen_economy_engine.Domain.Labels.{Authority, TemporalState}
use baen_economy_engine.Json.{raw}
use baen_economy_engine.Events.Types.{
  EventError, bad_revision, unknown_phase, bad_schema, bad_payload_json, payload_mismatch,
  identity_mismatch, Primitives, ResolutionStatus, pending, resolved, CampaignDate, EventEnvelope,
  EventInput, validate_required_text, validate_optional_text, is_unknown_phase,
}

-- The JSON list that identifies an event.
identity_value : String → String → ℕ → String → ℤ → ℕ → Value
identity_value timeline key revision type ordinal sequence = arr (
    cons (text timeline) (
      cons (text key) (
        cons (int (pos revision))
          (cons (text type) (cons (int ordinal) (cons (int (pos sequence)) nil))))))

-- The texts that an event must have.
validate_texts : EventEnvelope → Result EventError (Unit {0})
unfolding validate_required_text
validate_texts e = do
  validate_required_text e.source_event_key
  validate_required_text e.timeline_id
  validate_required_text e.model_version
  validate_required_text e.source_ref
  validate_required_text e.event_type
  validate_optional_text e.subject_entity_id
  validate_optional_text e.subject_site_id
  validate_optional_text e.reverses_event_id

abbrev optional_text : Option String → Value
optional_text none = null
optional_text (some s) = text s

abbrev optional_int : Option ℤ → Value
optional_int none = null
optional_int (some n) = int n

abbrev optional_nat : Option ℕ → Value
optional_nat none = null
optional_nat (some n) = int (pos n)

abbrev authority_text : Authority → String
authority_text Authority.canon_import = "canon_import"
authority_text Authority.user_ruling = "user_ruling"
authority_text Authority.campaign_resolution = "campaign_resolution"
authority_text Authority.engine_derived = "engine_derived"
authority_text Authority.scenario_assumption = "scenario_assumption"

abbrev state_text : TemporalState → String
state_text TemporalState.current = "current"
state_text TemporalState.historical = "historical"
state_text TemporalState.forward_resolved = "forward_resolved"
state_text TemporalState.projected = "projected"
state_text TemporalState.superseded = "superseded"
state_text TemporalState.unknown = "unknown"

abbrev status_text : ResolutionStatus → String
status_text pending = "pending"
status_text resolved = "resolved"

-- The text whose code points a stored payload is; it stands in the hashed object as a string.
abbrev date_value : CampaignDate → Value
date_value d = obj (
    field "ordinal" (int d.ordinal) (
      field "label" (text d.label) (
        field "year_dr" (optional_int d.year_dr) (
          field "month_code" (optional_text d.month_code)
            (field "day" (optional_nat d.day) (field "precision" (text d.precision) end))))))

integrity_value : EventEnvelope → Value
integrity_value e = obj (
    field "schema_version" (int (pos e.schema_version)) (
      field "source_event_key" (text e.source_event_key) (
        field "event_revision" (int (pos e.event_revision)) (
          field "event_id" (text e.event_id) (
            field "payload_hash" (text e.payload_hash) (
              field "timeline_id" (text e.timeline_id) (
                field "model_version" (text e.model_version) (
                  field "campaign_date" (date_value e.campaign_date) (
                    field "phase" (text e.phase) (
                      field "sequence" (int (pos e.sequence)) (
                        field "authority" (text (authority_text e.authority)) (
                          field "temporal_state" (text (state_text e.temporal_state)) (
                            field "resolution_status" (text (status_text e.resolution_status)) (
                              field "source_ref" (text e.source_ref) (
                                field "event_type" (text e.event_type) (
                                  field "subject_entity_id" (optional_text e.subject_entity_id) (
                                    field "subject_site_id" (optional_text e.subject_site_id) (
                                      field "payload_json" (raw e.payload_json) (
                                        field "reverses_event_id"
                                          (optional_text e.reverses_event_id) end)))))))))))))))))))

-- `==` of two texts given by their code points
unfoldable pub codes_eq : List ℕ → List ℕ → Bool
codes_eq [] [] = true
codes_eq [] (y ∷ ys) = false
codes_eq (x ∷ xs) [] = false
codes_eq (x ∷ xs) (y ∷ ys) = x == y && codes_eq xs ys

pub codes_eq_iff : (xs ys : List ℕ) → (codes_eq xs ys ≡ true) ↔ (xs ≡ ys)
unfolding codes_eq
codes_eq_iff [] [] = (λ h. refl, λ p. refl)
codes_eq_iff [] (y ∷ ys) = (λ h. cc, λ p. cc)
codes_eq_iff (x ∷ xs) [] = (λ h. cc, λ p. cc)
codes_eq_iff (x ∷ xs) (y ∷ ys) = (
  λ h. ground (arith, codes_eq_iff xs ys, ==_iff x y),
  λ p. ground (arith, codes_eq_iff xs ys, ==_iff x y),
)

unfoldable pub codes-discrete : Discrete (List ℕ)
unfolding Bool-cases
codes-discrete xs ys = elim (Bool-cases (codes_eq xs ys)) [
  | inl e ↦ yes ((codes_eq_iff xs ys).0 e)
  | inr e ↦ no (λ p. ground (arith, codes_eq_iff xs ys))
]

module _ (prims : Primitives) where
  open prims use {sha256, uuid5, loads}

  unfoldable pub identity_id : String → String → ℕ → String → ℤ → ℕ → String
  unfolding identity_value
  identity_id timeline key revision type ordinal sequence =
      append "event:"
        (uuid5 (canonical_json (identity_value timeline key revision type ordinal sequence)))

  -- The envelope that `create` builds once its checks have passed.
  unfoldable pub envelope_of : EventInput → EventEnvelope
  unfolding identity_id
  envelope_of i = record {
    schema_version = 1;
    source_event_key = i.source_event_key;
    event_revision = i.event_revision;
    event_id =
        identity_id i.timeline_id i.source_event_key i.event_revision i.event_type
          i.campaign_date.ordinal i.sequence;
    payload_hash = sha256 (canonical_json i.payload);
    timeline_id = i.timeline_id;
    model_version = i.model_version;
    campaign_date = i.campaign_date;
    phase = i.phase;
    sequence = i.sequence;
    authority = i.authority;
    temporal_state = i.temporal_state;
    resolution_status = i.resolution_status;
    source_ref = i.source_ref;
    event_type = i.event_type;
    subject_entity_id = i.subject_entity_id;
    subject_site_id = i.subject_site_id;
    payload_json = canonical_json i.payload;
    reverses_event_id = i.reverses_event_id;
  }

  -- `EventEnvelope.create`
  unfoldable pub create : EventInput → Result EventError EventEnvelope
  unfolding envelope_of validate_required_text
  create i = do
    raise_if (ltb i.event_revision 1) bad_revision
    validate_required_text i.source_event_key
    validate_required_text i.source_ref
    validate_required_text i.timeline_id
    validate_required_text i.model_version
    validate_required_text i.event_type
    validate_optional_text i.subject_entity_id
    validate_optional_text i.subject_site_id
    validate_optional_text i.reverses_event_id
    raise_if (is_unknown_phase i.phase) unknown_phase
    ok (envelope_of i)

  check_payload : EventEnvelope → Option Value → Result EventError (Unit {0})
  check_payload e none = err bad_payload_json
  check_payload e (some payload) =
      let canonical = canonical_json payload in
      raise_if
        (not (codes_eq canonical e.payload_json) || not (str_eq (sha256 canonical) e.payload_hash))
        payload_mismatch

  -- `validate_integrity`
  unfoldable pub validate_integrity : EventEnvelope → Result EventError (Unit {0})
  unfolding check_payload validate_texts identity_id
  validate_integrity e = do
    raise_if (not (e.schema_version == 1)) bad_schema
    raise_if (ltb e.event_revision 1) bad_revision
    validate_texts e
    check_payload e (loads e.payload_json)
    raise_if
        (not (
          str_eq e.event_id (
            identity_id e.timeline_id e.source_event_key e.event_revision e.event_type
              e.campaign_date.ordinal e.sequence)))
        identity_mismatch
    raise_if (is_unknown_phase e.phase) unknown_phase

  -- `integrity_hash`
  unfoldable pub integrity_hash : EventEnvelope → Result EventError String
  unfolding integrity_value
  integrity_hash e = do validate_integrity e; ok (sha256 (canonical_json (integrity_value e)))
