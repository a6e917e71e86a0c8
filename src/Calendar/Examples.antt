-- ===== src/Calendar/Examples.antt =====
-- agriculture_calendar.py: runs of the gate on concrete dates.
use baen_economy_engine.Prelude.{◌≡◌, ◌≢◌, ◌↔◌, refl, none, some, arith, ok}
use baen_economy_engine.Prelude.Text.{has_text, is_trimmed}
use baen_economy_engine.Calendar.Date.{
  CampaignDate, compare_campaign_dates, mirtul, early, month_index, day_bounds, earliest_key,
  latest_key,
}
use baen_economy_engine.Calendar.Order.{IsValid, Relates, compare-Relates}
use baen_economy_engine.Calendar.Gate.{
  ReferenceKind, TemporalReference, TemporalGate, PlanningPreviewSelection, classify, forward,
  require_current_actual, select_planning_preview, require_planning_preview,
}
use baen_economy_engine.Calendar.Layers.{
  GateIsValid, DatedLayer, require_current_actual_iff, classify-DatedLayer,
}
use baen_economy_engine.Calendar.Previews.{
  Selected, permit_for, require_planning_preview_iff, select-require,
}

abbrev today : CampaignDate
today = record { year_dr = 1372; month = mirtul; day = some 12; part = none }

abbrev early_mirtul : CampaignDate
early_mirtul = record { year_dr = 1373; month = mirtul; day = none; part = some early }

today-IsValid : IsValid today
today-IsValid = record { year_positive = omega arith; day_valid = (omega arith, omega arith, refl) }

early-IsValid : IsValid early_mirtul
early-IsValid = record { year_positive = omega arith; day_valid = tt }

abbrev gate : TemporalGate
gate = record { current_actual_date = today; forward_through_year = 1373 }

gate-GateIsValid : GateIsValid gate
gate-GateIsValid = record { date_valid = today-IsValid; date_exact = refl; horizon = omega arith }

abbrev todays : TemporalReference
todays = record { reference_id = "harvest"; kind = ReferenceKind.dated; campaign_date = some today }

abbrev next_years : TemporalReference
next_years = record {
  reference_id = "sowing";
  kind = ReferenceKind.dated;
  campaign_date = some early_mirtul;
}

abbrev selection : PlanningPreviewSelection
selection = record {
  reference_id = "sowing";
  selected_layer = forward;
  actual_anchor = today;
  reason = "budget";
}

compare-Relates_example : Relates (compare_campaign_dates today early_mirtul) today early_mirtul
compare-Relates_example = compare-Relates today early_mirtul today-IsValid early-IsValid

require_current_actual_iff_example :
    (require_current_actual gate todays ≡ ok todays)
    ↔ ((todays.kind ≡ ReferenceKind.dated) × (todays.campaign_date ≡ some today))
require_current_actual_iff_example =
    require_current_actual_iff gate todays gate-GateIsValid today-IsValid

classify-DatedLayer_example : DatedLayer gate early_mirtul (classify gate next_years)
classify-DatedLayer_example =
    classify-DatedLayer gate "sowing" early_mirtul gate-GateIsValid early-IsValid

require_planning_preview_iff_example :
    (require_planning_preview gate next_years (some selection)
      ≡ ok (permit_for gate next_years selection))
    ↔ (Selected gate next_years selection
        × (permit_for gate next_years selection ≡ permit_for gate next_years selection))
require_planning_preview_iff_example =
    require_planning_preview_iff gate next_years selection (permit_for gate next_years selection)

select_run : select_planning_preview gate next_years "budget" ≡ ok selection
unfolding select_planning_preview classify compare_campaign_dates earliest_key latest_key day_bounds
    month_index has_text is_trimmed
select_run = refl

select-require_example :
    (require_planning_preview gate next_years (some selection)
      ≡ ok (permit_for gate next_years selection))
    × (require_current_actual gate next_years ≢ ok next_years)
select-require_example = select-require gate next_years "budget" selection select_run
