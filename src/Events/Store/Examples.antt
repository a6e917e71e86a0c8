-- ===== src/Events/Store/Examples.antt =====
-- events.py: a store that takes an event and its correction.
use mathlib.Core.Bool.{decide}
use Prim.Native.String.{◌++◌ as append_text}
use baen_economy_engine.Prelude.{
  ℕ, zero, suc, ◌+◌, ◌%◌, ◌≡◌, ◌↔◌, refl, true, false, none, some, String, List, [], ◌∷◌, ok,
  ℕ_discrete,
}
use baen_economy_engine.Prelude.Int.{pos}
use baen_economy_engine.Prelude.Dict.{lookup, insert, contains, string_eq, pair_eq, nat_eq}
use baen_economy_engine.Prelude.Text.{has_text, has_control}
use baen_economy_engine.Json.{Value, obj, text, field, end, canonical_json}
use baen_economy_engine.Domain.Labels.{Authority, TemporalState}
use baen_economy_engine.Events.Types.{
  Primitives, ResolutionStatus, CampaignDate, EventEnvelope, EventInput, phase_rank,
  may_mutate_actual, may_reverse_actual,
}
use baen_economy_engine.Events.Envelope.{envelope_of, validate_integrity, codes_eq, create}
use baen_economy_engine.Events.Envelope.RoundTrip.{create-validate_integrity}
use baen_economy_engine.Events.Store.{
  EventStore, empty_store, append, contains_active, contains_exact, EventEnvelope-discrete,
  store_with,
}
use baen_economy_engine.Events.Store.Accepts.{Accepts, append-Accepts}
use baen_economy_engine.Events.Store.Invariant.{IsValid, empty-IsValid, append-IsValid}
use baen_economy_engine.Events.Store.Active.{Stored, next_key, contains_active_iff, active_unique}

total : List ℕ → ℕ
total [] = zero
total (c ∷ cs) = c + total cs

strokes : ℕ → String
strokes zero = ""
strokes (suc n) = append_text "i" (strokes n)

abbrev note : Value
note = obj (field "note" (text "n") end)

-- Stand-ins of the standard library's functions: an identity by the sum of the code points, and a
-- reader that knows one text.
abbrev prims : Primitives
prims = record {
  sha256 = λ cs. "h";
  uuid5 = λ cs. strokes (total cs % 50);
  loads = λ cs. some note;
}

abbrev date : CampaignDate
date = record {
  ordinal = pos 100;
  label = "Mirtul 1372";
  year_dr = none;
  month_code = none;
  day = none;
  precision = "month";
}

abbrev input : EventInput
input = record {
  source_event_key = "k";
  event_revision = 1;
  timeline_id = "actual";
  model_version = "m";
  campaign_date = date;
  phase = "production";
  sequence = 0;
  authority = Authority.user_ruling;
  temporal_state = TemporalState.current;
  resolution_status = ResolutionStatus.resolved;
  source_ref = "r";
  event_type = "stock.production";
  payload = note;
  subject_entity_id = none;
  subject_site_id = none;
  reverses_event_id = none;
}

abbrev first : EventEnvelope
first = envelope_of prims input

abbrev correction : EventEnvelope
correction =
    envelope_of prims (record input { event_revision = 2; reverses_event_id = some first.event_id })

abbrev one : EventStore
one = store_with empty_store first

abbrev two : EventStore
two = store_with one correction

append-first : append prims empty_store first ≡ ok one
unfolding append validate_integrity envelope_of has_text has_control codes_eq canonical_json total
    strokes lookup insert contains phase_rank
append-first = refl

append-correction : append prims one correction ≡ ok two
unfolding append validate_integrity envelope_of has_text has_control codes_eq canonical_json total
    strokes lookup insert contains store_with phase_rank may_reverse_actual
append-correction = refl

active_run : contains_active two first ≡ false
unfolding contains_active contains_exact lookup contains store_with insert envelope_of strokes total
    canonical_json codes_eq EventEnvelope-discrete decide ℕ_discrete
active_run = refl

one-IsValid : IsValid one
one-IsValid = (append-IsValid prims empty_store one first empty-IsValid append-first).0

append-Accepts_example : Accepts one correction × (two ≡ store_with one correction)
append-Accepts_example =
    append-Accepts prims one two correction (λ k p found. (one-IsValid.at_key k p found).0)
      append-correction

append-IsValid_example :
    IsValid two
    × (lookup correction.event_id one.events_by_id ≡ none)
    × (lookup correction.event_id two.events_by_id ≡ some correction)
append-IsValid_example = append-IsValid prims one two correction one-IsValid append-correction

two-IsValid : IsValid two
two-IsValid = (append-IsValid prims one two correction one-IsValid append-correction).0

first-Stored : Stored one first
unfolding envelope_of store_with lookup insert strokes total canonical_json
first-Stored = refl

contains_active_iff_example :
    (contains_active two first ≡ true)
    ↔ (Stored two first × (lookup (next_key first) two.source_revisions ≡ none))
contains_active_iff_example = contains_active_iff two two-IsValid first

correction_active : contains_active two correction ≡ true
unfolding contains_active contains_exact lookup contains store_with insert envelope_of strokes total
    canonical_json codes_eq EventEnvelope-discrete decide ℕ_discrete
correction_active = refl

active_unique_example : correction ≡ correction
active_unique_example =
    active_unique two two-IsValid correction correction correction_active correction_active refl

first_mutates : may_mutate_actual first ≡ true
unfolding may_mutate_actual envelope_of
first_mutates = refl

first_kept : Stored two first
unfolding envelope_of store_with lookup insert strokes total canonical_json
first_kept = refl

correction_kept : Stored two correction
unfolding envelope_of store_with lookup insert strokes total canonical_json
correction_kept = refl

created : create prims input ≡ ok first
unfolding create has_text has_control phase_rank
created = refl

create-validate_integrity_example : validate_integrity prims first ≡ ok tt
create-validate_integrity_example =
    create-validate_integrity prims input first note refl refl created
