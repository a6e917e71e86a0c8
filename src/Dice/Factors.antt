-- ===== src/Dice/Factors.antt =====
-- business_month.py: `employee_size_modifier`, `revenue_factor`, `expense_factor`,
-- `_validate_outcome_margin` and the modifier lists of a month.
use baen_economy_engine.Prelude.{
  ℕ, ◌≡◌, Bool, true, ◌&&◌, ◌||◌, not, Option, none, some, ltb, ◌==◌, if◌then◌else◌, Result, ok,
  err, ◌>>◌, raise_if, arith,
}
use baen_economy_engine.Prelude.Int.{ℤ, pos, negsuc, ◌-ℤ◌, leb_ℤ, eqb_ℤ, -ℤ_parts}
use baen_economy_engine.Decimal.Number.{Decimal, fraction}
use baen_economy_engine.Dice.Classify.{
  Outcome, critical_success, success_by_5_plus, success, exact_target, failure, failure_by_5_plus,
  critical_failure, classify_3d6,
}

pub data MonthError : Type 0 where
  ambiguous_size outcome_margin : MonthError

-- Whole employee counts; the source refuses every other number.
unfoldable pub employee_size_modifier : ℕ → Result MonthError ℤ
employee_size_modifier count =
    if count == 200 || count == 1000
    then err ambiguous_size
    else if ltb count 50
    then ok (pos 2)
    else if ltb count 200
    then ok (pos 0)
    else if ltb count 1000
    then ok (negsuc 1)
    else ok (negsuc 3)

-- Whether an outcome whose name fixes its margin has a margin that fits.
compatible : Outcome → ℤ → Bool
compatible success_by_5_plus margin = leb_ℤ (pos 5) margin
compatible success margin = leb_ℤ (pos 1) margin && leb_ℤ margin (pos 4)
compatible exact_target margin = eqb_ℤ margin (pos 0)
compatible failure_by_5_plus margin = leb_ℤ margin (negsuc 4)
compatible _ margin = true

-- `_validate_outcome_margin`
unfoldable pub validate_outcome_margin : Outcome → Option ℤ → Result MonthError (Unit {0})
unfolding compatible
validate_outcome_margin outcome none = ok tt
validate_outcome_margin outcome (some margin) =
    raise_if (not (compatible outcome margin)) outcome_margin

unfoldable pub revenue_table : Outcome → Decimal
revenue_table critical_success = fraction 125 2
revenue_table success_by_5_plus = fraction 115 2
revenue_table success = fraction 105 2
revenue_table exact_target = fraction 100 2
revenue_table failure = fraction 90 2
revenue_table failure_by_5_plus = fraction 80 2
revenue_table critical_failure = fraction 70 2

unfoldable pub expense_table : Outcome → Decimal
expense_table critical_success = fraction 90 2
expense_table success_by_5_plus = fraction 100 2
expense_table success = fraction 105 2
expense_table exact_target = fraction 105 2
expense_table failure = fraction 115 2
expense_table failure_by_5_plus = fraction 115 2
expense_table critical_failure = fraction 125 2

unfoldable pub revenue_factor : Outcome → Option ℤ → Result MonthError Decimal
unfolding validate_outcome_margin
revenue_factor outcome margin = do
  validate_outcome_margin outcome margin
  ok (revenue_table outcome)

unfoldable pub expense_factor : Outcome → Option ℤ → Result MonthError Decimal
unfolding validate_outcome_margin
expense_factor outcome margin = do
  validate_outcome_margin outcome margin
  ok (expense_table outcome)

classify-compatible :
    (total : ℕ) (target : ℤ) (o : Outcome)
    → classify_3d6 total target ≡ ok o
    → compatible o (target -ℤ pos total) ≡ true
unfolding classify_3d6 compatible
classify-compatible total target o h = ground (arith, -ℤ_parts target (pos total))

-- A class that `classify_3d6` gives always fits its own margin, so both factors are found.
pub classified_factors :
    (total : ℕ) (target : ℤ) (o : Outcome)
    → classify_3d6 total target ≡ ok o
    → (revenue_factor o (some (target -ℤ pos total)) ≡ ok (revenue_table o))
      × (expense_factor o (some (target -ℤ pos total)) ≡ ok (expense_table o))
unfolding revenue_factor expense_factor
classified_factors total target o h =
    let fits = classify-compatible total target o h in (ground (arith, fits), ground (arith, fits))
