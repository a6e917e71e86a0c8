-- ===== src/Calendar/Layers.antt =====
-- Which layer `AgricultureTemporalGate.classify` gives, and what passes `require_current_actual`.
use baen_economy_engine.Prelude.{
  ◌≤◌, ◌≡◌, ◌↔◌, refl, true, Option, none, some, arith, Result, ok, err, Bool-cases, Option-cases,
  inl, inr, ap, ◌∙◌, subst, ◌<◌, String, leb,
}
use baen_economy_engine.Calendar.Date.{
  CalendarError, CampaignDate, ambiguous_date, compare_campaign_dates, before, exact, after,
  overlaps, is_exact_day, DateRelation,
}
use baen_economy_engine.Calendar.Order.{IsValid, exact-eq, compare_self, Relates, compare-Relates}
use baen_economy_engine.Calendar.Gate.{
  ReferenceKind, TemporalClass, TemporalReference, TemporalGate, classify, current_actual,
  historical, forward, later, require_current_actual,
}

abbrev pub HasValidDate : Option CampaignDate → Type 0
HasValidDate none = Unit
HasValidDate (some date) = IsValid date

pub record GateIsValid (gate : TemporalGate) : Type 0 where
  pub date_valid : IsValid gate.current_actual_date
  pub date_exact : is_exact_day gate.current_actual_date ≡ true
  pub horizon : gate.current_actual_date.year_dr ≤ gate.forward_through_year

-- The relation of a valid date to the current day is `exact` only for the current day itself.
date_exact-eq :
    (gate : TemporalGate) (date : CampaignDate)
    → GateIsValid gate
    → IsValid date
    → compare_campaign_dates date gate.current_actual_date ≡ exact
    → date ≡ gate.current_actual_date
date_exact-eq gate date vg vd h = exact-eq date gate.current_actual_date vd vg.date_valid h

current-dated :
    (gate : TemporalGate) (ref : TemporalReference)
    → require_current_actual gate ref ≡ ok ref
    → (ref.kind ≡ ReferenceKind.dated)
      × ((date : CampaignDate) × ((ref.campaign_date ≡ some date)
            × (compare_campaign_dates date gate.current_actual_date ≡ exact)))
unfolding require_current_actual classify
current-dated gate ref h = elim (Option-cases ref.campaign_date) [
  | inl e ↦ absurd (ground arith)
  | inr (date, e) ↦ (ground arith, (date, (e, ground arith)))
]

-- A reference is current evidence exactly when it is dated to the current day itself.
pub require_current_actual_iff :
    (gate : TemporalGate) (ref : TemporalReference)
    → GateIsValid gate
    → HasValidDate ref.campaign_date
    → (require_current_actual gate ref ≡ ok ref)
      ↔ ((ref.kind ≡ ReferenceKind.dated) × (ref.campaign_date ≡ some gate.current_actual_date))
unfolding require_current_actual classify
require_current_actual_iff gate ref vg vr = (
  (λ h.
      let found = current-dated gate ref h in
      let date : CampaignDate = found.1.0 in
      (
        found.0,
        found.1.1.0
            ∙ ap some (date_exact-eq gate date vg (subst HasValidDate found.1.1.0 vr) found.1.1.1),
      )),
  (λ h. ground (arith, compare_self gate.current_actual_date vg.date_exact)),
)

-- What dated evidence becomes: its layer, or the refusal when a partial date holds the current day.
abbrev pub DatedLayer : TemporalGate → CampaignDate → Result CalendarError TemporalClass → Type 0
DatedLayer gate date (ok current_actual) = date ≡ gate.current_actual_date
DatedLayer gate date (ok historical) = Relates before date gate.current_actual_date
DatedLayer gate date (ok forward) =
    Relates after date gate.current_actual_date × (date.year_dr ≤ gate.forward_through_year)
DatedLayer gate date (ok later) =
    Relates after date gate.current_actual_date × (gate.forward_through_year < date.year_dr)
DatedLayer gate date (ok _) = ⊥
DatedLayer gate date (err e) = (e ≡ ambiguous_date) × Relates overlaps date gate.current_actual_date

module _ (gate : TemporalGate) (id : String) (date : CampaignDate) (vg : GateIsValid gate)
    (vd : IsValid date) where
  layer_by_case :
      (rel : DateRelation)
      → compare_campaign_dates date gate.current_actual_date ≡ rel
      → Relates rel date gate.current_actual_date
      → DatedLayer gate date (
          classify gate
            (record { reference_id = id; kind = ReferenceKind.dated; campaign_date = some date }))
  unfolding classify
  layer_by_case before h s = rw (h, classify) s
  layer_by_case exact h s = rw (h, classify) (date_exact-eq gate date vg vd h)
  layer_by_case overlaps h s = rw (h, classify) (refl, s)
  layer_by_case after h s = elim (Bool-cases (leb date.year_dr gate.forward_through_year)) [
    | inl e ↦ rw (h, classify) (rw e (s, ground arith))
    | inr e ↦ rw (h, classify) (rw e (s, ground arith))
  ]

  -- Dated evidence is current only on the current day, historical or ahead only if all its days
  -- are; ahead it is `forward` up to the horizon and `later` beyond; a date that overlaps the
  -- current day without being it is refused.
  pub classify-DatedLayer : DatedLayer gate date (
      classify gate
        (record { reference_id = id; kind = ReferenceKind.dated; campaign_date = some date }))
  classify-DatedLayer =
      layer_by_case (compare_campaign_dates date gate.current_actual_date) refl
        (compare-Relates date gate.current_actual_date vd vg.date_valid)
