-- ===== src/Domain/Eligibility.antt =====
-- domain.py: `EntityRecord` and what it contributes to the current operating totals.
use baen_economy_engine.Prelude.{
  ◌≡◌, ◌↔◌, Bool, true, false, ◌&&◌, Option, none, some, String, arith,
}
use baen_economy_engine.Prelude.Int.{ℤ, pos, leb_ℤ}
use baen_economy_engine.Prelude.Text.{has_text, is_trimmed}
use baen_economy_engine.Decimal.Number.{Decimal}
use baen_economy_engine.Domain.Labels.{TemporalState, AccountingTreatment, is_current}

pub record EntityRecord : Type 0 where
  pub entity_id : String
  pub name : String
  pub source_ref : String
  pub source_record_id : Option String
  pub timeline_id : Option String
  pub effective_ordinal : Option ℤ
  pub temporal_state : TemporalState
  pub treatment : AccountingTreatment
  pub parent_name : Option String
  pub status : Option String
  pub sector : Option String
  pub city : Option String
  pub monthly_revenue : Option Decimal
  pub monthly_cost : Option Decimal
  pub capital_invested : Option Decimal
  pub profit_margin : Option Decimal
  pub date_operational_text : Option String
  pub source_last_updated_text : Option String
  pub as_of_campaign_date : Option String
  pub classification_authority_ref : Option String
  pub classification_rationale : Option String

-- `isinstance(value, str) and bool(value.strip())`
abbrev pub some_text : Option String → Bool
some_text none = false
some_text (some s) = has_text s

abbrev pub some_trimmed : Option String → Bool
some_trimmed none = false
some_trimmed (some s) = has_text s && is_trimmed s

abbrev pub some_nonnegative : Option ℤ → Bool
some_nonnegative none = false
some_nonnegative (some n) = leb_ℤ (pos 0) n

abbrev is_operating : AccountingTreatment → Bool
is_operating AccountingTreatment.operating_unit = true
is_operating _ = false

abbrev is_operating_or_cost : AccountingTreatment → Bool
is_operating_or_cost AccountingTreatment.operating_unit = true
is_operating_or_cost AccountingTreatment.cost_center = true
is_operating_or_cost _ = false

unfoldable pub eligible_for_current_operating_totals : EntityRecord → Bool
eligible_for_current_operating_totals e =
    is_current e.temporal_state
    && (is_operating e.treatment
        && (some_trimmed e.timeline_id
            && (some_nonnegative e.effective_ordinal
                && (some_text e.classification_authority_ref
                    && some_text e.classification_rationale))))

unfoldable pub contributes_current_revenue : EntityRecord → Bool
unfolding eligible_for_current_operating_totals
contributes_current_revenue e = eligible_for_current_operating_totals e

unfoldable pub contributes_current_cost : EntityRecord → Bool
contributes_current_cost e =
    is_current e.temporal_state
    && (some_trimmed e.timeline_id
        && (some_nonnegative e.effective_ordinal
            && (some_text e.classification_authority_ref
                && (some_text e.classification_rationale && is_operating_or_cost e.treatment))))

-- An entity counts to current revenue exactly when it counts to current cost and is an operating
-- unit.
pub revenue-cost :
    (e : EntityRecord)
    → (contributes_current_revenue e ≡ true)
      ↔ ((contributes_current_cost e ≡ true) × (e.treatment ≡ AccountingTreatment.operating_unit))
unfolding contributes_current_revenue contributes_current_cost
revenue-cost e = (λ h. ground arith, λ h. ground arith)
