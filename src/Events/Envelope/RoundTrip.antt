-- ===== src/Events/Envelope/RoundTrip.antt =====
-- events.py: what `EventEnvelope.create` builds passes `validate_integrity`.
use baen_economy_engine.Prelude.{
  ℕ, ◌≡◌, refl, true, false, some, String, List, ok, >>=-eq-ok, ok-inj, raise_if-ok, ltb, str_eq,
  eq_iff, subst,
}
use baen_economy_engine.Json.{Value, canonical_json}
use baen_economy_engine.Events.Types.{
  Primitives, EventEnvelope, EventInput, bad_revision, unknown_phase, validate_required_text,
  validate_optional_text, is_unknown_phase,
}
use baen_economy_engine.Events.Envelope.{
  codes_eq, codes_eq_iff, envelope_of, create, check_payload, validate_texts, validate_integrity,
}

str_eq_self : (s : String) → str_eq s s ≡ true
str_eq_self s = (eq_iff s s).1 refl

codes_eq_self : (cs : List ℕ) → codes_eq cs cs ≡ true
codes_eq_self cs = (codes_eq_iff cs cs).1 refl

-- The texts of an input are what `create` asks for.
abbrev TextsValid : EventInput → Type 0
TextsValid i =
    (validate_required_text i.source_event_key ≡ ok tt)
    × (validate_required_text i.timeline_id ≡ ok tt)
    × (validate_required_text i.model_version ≡ ok tt)
    × (validate_required_text i.source_ref ≡ ok tt)
    × (validate_required_text i.event_type ≡ ok tt)
    × (validate_optional_text i.subject_entity_id ≡ ok tt)
    × (validate_optional_text i.subject_site_id ≡ ok tt)
    × (validate_optional_text i.reverses_event_id ≡ ok tt)

module _ (prims : Primitives) (i : EventInput) where
  texts_valid : TextsValid i → validate_texts (envelope_of prims i) ≡ ok tt
  unfolding validate_texts envelope_of
  texts_valid (key, timeline, model, source, type, entity, site, reversed) =
      rw (key, timeline, model, source, type, entity, site, reversed) refl

  payload_valid :
      (v : Value)
      → prims.loads (canonical_json i.payload) ≡ some v
      → canonical_json v ≡ canonical_json i.payload
      → check_payload prims (envelope_of prims i) (prims.loads (envelope_of prims i).payload_json)
        ≡ ok tt
  unfolding check_payload envelope_of
  payload_valid v reads same =
      rw
        (
          reads,
          same,
          codes_eq_self (canonical_json i.payload),
          str_eq_self (prims.sha256 (canonical_json i.payload)),
        )
        refl

  built :
      ltb i.event_revision 1 ≡ false
      → validate_texts (envelope_of prims i) ≡ ok tt
      → check_payload prims (envelope_of prims i) (prims.loads (envelope_of prims i).payload_json)
        ≡ ok tt
      → is_unknown_phase i.phase ≡ false
      → validate_integrity prims (envelope_of prims i) ≡ ok tt
  unfolding validate_integrity envelope_of
  built positive texts payload phase = rw (positive, texts, payload, str_eq_self _, phase) refl

-- Where `json.loads` reads the canonical text of the payload back to a value with the same canonical
-- text, an event that `create` returns passes `validate_integrity`.
pub create-validate_integrity :
    (prims : Primitives) (i : EventInput) (e : EventEnvelope) (v : Value)
    → prims.loads (canonical_json i.payload) ≡ some v
    → canonical_json v ≡ canonical_json i.payload
    → create prims i ≡ ok e
    → validate_integrity prims e ≡ ok tt
unfolding create
create-validate_integrity prims i e v reads same h =
    let (positive, h1) = raise_if-ok (ltb i.event_revision 1) bad_revision _ h in
    let (_, key, h2) = >>=-eq-ok (validate_required_text i.source_event_key) _ h1 in
    let (_, source, h3) = >>=-eq-ok (validate_required_text i.source_ref) _ h2 in
    let (_, timeline, h4) = >>=-eq-ok (validate_required_text i.timeline_id) _ h3 in
    let (_, model, h5) = >>=-eq-ok (validate_required_text i.model_version) _ h4 in
    let (_, type, h6) = >>=-eq-ok (validate_required_text i.event_type) _ h5 in
    let (_, entity, h7) = >>=-eq-ok (validate_optional_text i.subject_entity_id) _ h6 in
    let (_, site, h8) = >>=-eq-ok (validate_optional_text i.subject_site_id) _ h7 in
    let (_, reversed, h9) = >>=-eq-ok (validate_optional_text i.reverses_event_id) _ h8 in
    let (phase, h10) = raise_if-ok (is_unknown_phase i.phase) unknown_phase _ h9 in
    let texts = texts_valid prims i (key, timeline, model, source, type, entity, site, reversed) in
    subst (λ x. validate_integrity prims x ≡ ok tt) (ok-inj h10)
      (built prims i positive texts (payload_valid prims i v reads same) phase)
