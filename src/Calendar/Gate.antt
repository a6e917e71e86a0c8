-- ===== src/Calendar/Gate.antt =====
-- agriculture_calendar.py: `TemporalReference`, `PlanningPreviewSelection`,
-- `PlanningPreviewPermit` and `AgricultureTemporalGate`.
use mathlib.Core.Bool.{decide}
use baen_economy_engine.Prelude.{
  ℕ, Bool, true, false, ◌&&◌, not, Option, none, some, ltb, leb, String, if◌then◌else◌, Result, ok,
  err, ◌>>=◌, ◌>>◌, raise_if, ℕ_discrete, str_eq,
}
use baen_economy_engine.Prelude.Text.{has_text, is_trimmed}
use baen_economy_engine.Calendar.Date.{
  CalendarError, unclean_text, missing_date, unexpected_date, anchor_not_exact, short_horizon,
  ambiguous_date, not_after_current, not_current_actual, not_planning_layer, no_selection,
  other_reference, other_layer, other_anchor, CampaignDate, DateRelation, before, exact, after,
  overlaps, compare_campaign_dates, is_exact_day,
}

pub data ReferenceKind : Type 0 where
  dated undated declared_later technical : ReferenceKind

pub data TemporalClass : Type 0 where
  current_actual historical forward later : TemporalClass
  undated technical : TemporalClass

pub record TemporalReference : Type 0 where
  pub reference_id : String
  pub kind : ReferenceKind
  pub campaign_date : Option CampaignDate

pub record PlanningPreviewSelection : Type 0 where
  pub reference_id : String
  pub selected_layer : TemporalClass
  pub actual_anchor : CampaignDate
  pub reason : String

pub record PlanningPreviewPermit : Type 0 where
  pub reference_id : String
  pub layer : TemporalClass
  pub actual_anchor : CampaignDate
  pub source_date : Option CampaignDate
  pub reason : String

pub record TemporalGate : Type 0 where
  pub current_actual_date : CampaignDate
  pub forward_through_year : ℕ

-- `_require_clean_text`
unfoldable pub require_clean_text : String → Result CalendarError (Unit {0})
require_clean_text value = raise_if (not (has_text value && is_trimmed value)) unclean_text

check_kind : ReferenceKind → Option CampaignDate → Result CalendarError (Unit {0})
check_kind ReferenceKind.dated none = err missing_date
check_kind ReferenceKind.undated (some _) = err unexpected_date
check_kind _ _ = ok tt

-- `TemporalReference.__post_init__`
unfoldable pub reference_post_init : TemporalReference → Result CalendarError TemporalReference
unfolding check_kind require_clean_text
reference_post_init ref = do
  require_clean_text ref.reference_id
  check_kind ref.kind ref.campaign_date
  ok ref

-- `PlanningPreviewSelection.__post_init__`
unfoldable pub selection_post_init :
    PlanningPreviewSelection → Result CalendarError PlanningPreviewSelection
unfolding require_clean_text
selection_post_init s = do
  require_clean_text s.reference_id
  require_clean_text s.reason
  raise_if (not (is_exact_day s.actual_anchor)) anchor_not_exact
  ok s

-- `AgricultureTemporalGate.__post_init__`: a horizon left out is the year of the current day.
unfoldable pub make_gate : CampaignDate → Option ℕ → Result CalendarError TemporalGate
make_gate current none = do
  raise_if (not (is_exact_day current)) anchor_not_exact
  ok (record { current_actual_date = current; forward_through_year = current.year_dr })
make_gate current (some year) = do
  raise_if (not (is_exact_day current)) anchor_not_exact
  raise_if (ltb year current.year_dr) short_horizon
  ok (record { current_actual_date = current; forward_through_year = year })

-- The end of `classify`, for a reference with the date `date`.
classify_dated : TemporalGate → CampaignDate → DateRelation → Result CalendarError TemporalClass
classify_dated gate date exact = ok current_actual
classify_dated gate date before = ok historical
classify_dated gate date after =
    if leb date.year_dr gate.forward_through_year then ok forward else ok later
classify_dated gate date overlaps = err ambiguous_date

classify_later : DateRelation → Result CalendarError TemporalClass
classify_later after = ok later
classify_later _ = err not_after_current

-- `dated` with no date is refused by the constructor; the source asserts it.
classify_kind :
    TemporalGate → ReferenceKind → Option CampaignDate → Result CalendarError TemporalClass
unfolding classify_dated classify_later
classify_kind gate ReferenceKind.technical date = ok TemporalClass.technical
classify_kind gate ReferenceKind.undated date = ok TemporalClass.undated
classify_kind gate declared_later none = ok later
classify_kind gate declared_later (some date) =
    classify_later (compare_campaign_dates date gate.current_actual_date)
classify_kind gate dated none = err missing_date
classify_kind gate dated (some date) =
    classify_dated gate date (compare_campaign_dates date gate.current_actual_date)

unfoldable pub classify : TemporalGate → TemporalReference → Result CalendarError TemporalClass
unfolding classify_kind
classify gate ref = classify_kind gate ref.kind ref.campaign_date

-- `layer is TemporalClass.CURRENT_ACTUAL`
abbrev pub is_current : TemporalClass → Bool
is_current current_actual = true
is_current _ = false

-- `layer in _PLANNING_LAYERS`
abbrev pub is_planning : TemporalClass → Bool
is_planning current_actual = false
is_planning historical = false
is_planning forward = true
is_planning later = true
is_planning TemporalClass.undated = true
is_planning TemporalClass.technical = true

unfoldable pub require_current_actual :
    TemporalGate → TemporalReference → Result CalendarError TemporalReference
require_current_actual gate ref = do
  layer ← classify gate ref
  raise_if (not (is_current layer)) not_current_actual
  ok ref

unfoldable pub select_planning_preview :
    TemporalGate → TemporalReference → String → Result CalendarError PlanningPreviewSelection
unfolding selection_post_init
select_planning_preview gate ref reason = do
  layer ← classify gate ref
  raise_if (not (is_planning layer)) not_planning_layer
  selection_post_init (record {
    reference_id = ref.reference_id;
    selected_layer = layer;
    actual_anchor = gate.current_actual_date;
    reason = reason;
  })

pub TemporalClass-discrete : Discrete TemporalClass
TemporalClass-discrete = hlevel

pub CampaignDate-discrete : Discrete CampaignDate
CampaignDate-discrete = hlevel ℕ_discrete

require_selection :
    TemporalGate
    → TemporalReference
    → TemporalClass
    → Option PlanningPreviewSelection
    → Result CalendarError PlanningPreviewPermit
require_selection gate ref found none = err no_selection
require_selection gate ref found (some s) = do
  raise_if (not (str_eq s.reference_id ref.reference_id)) other_reference
  raise_if (not (decide (TemporalClass-discrete s.selected_layer found))) other_layer
  raise_if (not (decide (CampaignDate-discrete s.actual_anchor gate.current_actual_date)))
      other_anchor
  ok (record {
    reference_id = ref.reference_id;
    layer = found;
    actual_anchor = gate.current_actual_date;
    source_date = ref.campaign_date;
    reason = s.reason;
  })

unfoldable pub require_planning_preview :
    TemporalGate
    → TemporalReference
    → Option PlanningPreviewSelection
    → Result CalendarError PlanningPreviewPermit
unfolding require_selection
require_planning_preview gate ref selection = do
  layer ← classify gate ref
  raise_if (not (is_planning layer)) not_planning_layer
  require_selection gate ref layer selection
