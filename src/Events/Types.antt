-- ===== src/Events/Types.antt =====
-- events.py: the types, `CampaignDate` with its validation, the phases, and which events may change
-- the actual history.
use baen_economy_engine.Prelude.{
  ℕ, Bool, true, false, ◌&&◌, ◌||◌, not, Option, none, some, String, List, [], ◌∷◌, leb, str_eq,
  Result, ok, ◌>>◌, raise_if, if◌then◌else◌,
}
use baen_economy_engine.Prelude.Int.{ℤ}
use baen_economy_engine.Prelude.Dict.{contains, string_eq}
use baen_economy_engine.Prelude.Text.{has_text, has_control}
use baen_economy_engine.Json.{Value}
use baen_economy_engine.Domain.Labels.{Authority, TemporalState, is_current, is_authoritative}

pub data EventError : Type 0 where
  bad_text bad_day bad_precision bad_revision bad_sequence unknown_phase : EventError
  bad_schema bad_payload_json payload_mismatch identity_mismatch : EventError
  duplicate_event id_collision duplicate_revision first_reverses : EventError
  no_preceding wrong_reversal unauthorised_correction : EventError

-- Standard-library functions: `hashlib.sha256(...).hexdigest()`, the text of `uuid5` in the engine's
-- name space, and `json.loads` (none: not valid JSON), each of a text by its code points.
pub record Primitives : Type 0 where
  pub sha256 : List ℕ → String
  pub uuid5 : List ℕ → String
  pub loads : List ℕ → Option Value

pub data ResolutionStatus : Type 0 where
  pending resolved : ResolutionStatus

abbrev pub is_resolved : ResolutionStatus → Bool
is_resolved pending = false
is_resolved resolved = true

pub record CampaignDate : Type 0 where
  pub ordinal : ℤ
  pub label : String
  pub year_dr : Option ℤ
  pub month_code : Option String
  pub day : Option ℕ
  pub precision : String

pub record EventEnvelope : Type 0 where
  pub schema_version : ℕ
  pub source_event_key : String
  pub event_revision : ℕ
  pub event_id : String
  pub payload_hash : String
  pub timeline_id : String
  pub model_version : String
  pub campaign_date : CampaignDate
  pub phase : String
  pub sequence : ℕ
  pub authority : Authority
  pub temporal_state : TemporalState
  pub resolution_status : ResolutionStatus
  pub source_ref : String
  pub event_type : String
  pub subject_entity_id : Option String
  pub subject_site_id : Option String
  pub payload_json : List ℕ
  pub reverses_event_id : Option String

-- `_validate_required_text`
unfoldable pub validate_required_text : String → Result EventError (Unit {0})
validate_required_text value = raise_if (not (has_text value) || has_control value) bad_text

abbrev pub validate_optional_text : Option String → Result EventError (Unit {0})
validate_optional_text none = ok tt
validate_optional_text (some value) = validate_required_text value

abbrev pub precisions : List String
precisions = "day" ∷ "month" ∷ "year" ∷ "approximate" ∷ "unknown" ∷ []

abbrev is_bad_day : Option ℕ → Bool
is_bad_day none = false
is_bad_day (some day) = not (leb 1 day && leb day 31)

-- `CampaignDate.__post_init__`
unfoldable pub date_post_init : CampaignDate → Result EventError CampaignDate
unfolding validate_required_text
date_post_init d = do
  validate_required_text d.label
  validate_optional_text d.month_code
  raise_if (is_bad_day d.day) bad_day
  raise_if (not (contains d.precision precisions)) bad_precision
  ok d

-- `PHASE_RANK`: a phase's place in `EventPhase`.
unfoldable pub phase_rank : String → Option ℕ
phase_rank phase =
    if str_eq phase "source_lock"
    then some 0
    else if str_eq phase "arrival"
    then some 1
    else if str_eq phase "production"
    then some 2
    else if str_eq phase "shipment"
    then some 3
    else if str_eq phase "consumption"
    then some 4
    else if str_eq phase "market"
    then some 5
    else if str_eq phase "finance"
    then some 6
    else if str_eq phase "close"
    then some 7
    else none

abbrev pub is_unknown_phase : String → Bool
is_unknown_phase phase = elim (phase_rank phase) [ none ↦ true | some _ ↦ false ]

-- What `create` is called with.
pub record EventInput : Type 0 where
  pub source_event_key : String
  pub event_revision : ℕ
  pub timeline_id : String
  pub model_version : String
  pub campaign_date : CampaignDate
  pub phase : String
  pub sequence : ℕ
  pub authority : Authority
  pub temporal_state : TemporalState
  pub resolution_status : ResolutionStatus
  pub source_ref : String
  pub event_type : String
  pub payload : Value
  pub subject_entity_id : Option String
  pub subject_site_id : Option String
  pub reverses_event_id : Option String

-- `timeline_id == "actual"`, current, resolved and authoritative.
abbrev pub is_actual_authority : EventEnvelope → Bool
is_actual_authority e =
    str_eq e.timeline_id "actual"
    && (is_current e.temporal_state
        && (is_resolved e.resolution_status && is_authoritative e.authority))

abbrev pub is_some : Option String → Bool
is_some none = false
is_some (some _) = true

unfoldable pub may_mutate_actual : EventEnvelope → Bool
may_mutate_actual e = is_actual_authority e && not (is_some e.reverses_event_id)

unfoldable pub may_reverse_actual : EventEnvelope → Bool
may_reverse_actual e = is_actual_authority e && is_some e.reverses_event_id
