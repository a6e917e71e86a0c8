-- ===== src/Calendar/Previews.antt =====
-- Planning previews: what `select_planning_preview` hands out and `require_planning_preview` takes.
use mathlib.Core.Bool.{decide_iff}
use baen_economy_engine.Prelude.{◌≡◌, ◌≢◌, ◌↔◌, true, some, arith, String, ok, eq_iff, ap, sym, ◌∙◌}
use baen_economy_engine.Calendar.Gate.{
  TemporalReference, TemporalGate, PlanningPreviewSelection, PlanningPreviewPermit, classify,
  is_planning, require_current_actual, select_planning_preview, require_planning_preview,
  TemporalClass-discrete, CampaignDate-discrete,
}

-- What a successful selection records.
abbrev pub Selected : TemporalGate → TemporalReference → PlanningPreviewSelection → Type 0
Selected gate ref s =
    (s.reference_id ≡ ref.reference_id)
    × (classify gate ref ≡ ok s.selected_layer)
    × (is_planning s.selected_layer ≡ true)
    × (s.actual_anchor ≡ gate.current_actual_date)

select-Selected :
    (gate : TemporalGate) (ref : TemporalReference) (reason : String) (s : PlanningPreviewSelection)
    → select_planning_preview gate ref reason ≡ ok s
    → Selected gate ref s × (s.reason ≡ reason)
unfolding select_planning_preview
select-Selected gate ref reason s h = ground arith

abbrev pub permit_for :
    TemporalGate → TemporalReference → PlanningPreviewSelection → PlanningPreviewPermit
permit_for gate ref s = record {
  reference_id = ref.reference_id;
  layer = s.selected_layer;
  actual_anchor = gate.current_actual_date;
  source_date = ref.campaign_date;
  reason = s.reason;
}

module _ (gate : TemporalGate) (ref : TemporalReference) (s : PlanningPreviewSelection) where
  permit-Selected :
      (p : PlanningPreviewPermit)
      → require_planning_preview gate ref (some s) ≡ ok p
      → Selected gate ref s × (p ≡ permit_for gate ref s)
  unfolding require_planning_preview
  permit-Selected p h = ground (
    arith,
    eq_iff s.reference_id ref.reference_id,
    decide_iff (TemporalClass-discrete s.selected_layer p.layer),
    decide_iff (CampaignDate-discrete s.actual_anchor gate.current_actual_date),
  )

  Selected-permit :
      Selected gate ref s → require_planning_preview gate ref (some s) ≡ ok (permit_for gate ref s)
  unfolding require_planning_preview
  Selected-permit h = ground (
    arith,
    eq_iff s.reference_id ref.reference_id,
    decide_iff (TemporalClass-discrete s.selected_layer s.selected_layer),
    decide_iff (CampaignDate-discrete s.actual_anchor gate.current_actual_date),
  )

  -- A permit is issued exactly for a selection of this reference, in the layer it has now and at
  -- this gate's day. The permit names that reference and layer, and the layer is a planning one.
  pub require_planning_preview_iff :
      (p : PlanningPreviewPermit)
      → (require_planning_preview gate ref (some s) ≡ ok p)
        ↔ (Selected gate ref s × (p ≡ permit_for gate ref s))
  require_planning_preview_iff p = (permit-Selected p, λ h. Selected-permit h.0 ∙ ap ok (sym h.1))

-- A reference that is selected for a preview gets its permit at the same gate, and is no current
-- evidence there.
pub select-require :
    (gate : TemporalGate) (ref : TemporalReference) (reason : String) (s : PlanningPreviewSelection)
    → select_planning_preview gate ref reason ≡ ok s
    → (require_planning_preview gate ref (some s) ≡ ok (permit_for gate ref s))
      × (require_current_actual gate ref ≢ ok ref)
unfolding require_current_actual
select-require gate ref reason s h =
    let found = select-Selected gate ref reason s h in
    (Selected-permit gate ref s found.0, λ e. ground arith)
