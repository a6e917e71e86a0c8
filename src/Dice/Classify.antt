-- ===== src/Dice/Classify.antt =====
-- operator_dice.py: `classify_3d6` and the arithmetic of `_three_d6_check`.
use baen_economy_engine.Prelude.{
  ℕ, ◌+◌, ◌&&◌, ◌||◌, not, List, [], ◌∷◌, leb, ◌==◌, if◌then◌else◌, Result, ok, err,
}
use baen_economy_engine.Prelude.Int.{ℤ, pos, negsuc, ◌-ℤ◌, ◌+ℤ◌, leb_ℤ, ltb_ℤ, eqb_ℤ, sum_ℤ}

pub data DiceError : Type 0 where
  bad_total bad_faces bad_sides : DiceError

pub data Outcome : Type 0 where
  critical_success success_by_5_plus success exact_target : Outcome
  failure failure_by_5_plus critical_failure : Outcome

-- `classify_3d6(total=..., effective_target=...)`
unfoldable pub classify_3d6 : ℕ → ℤ → Result DiceError Outcome
classify_3d6 total target =
    let margin = target -ℤ pos total in
    if not (leb 3 total && leb total 18)
    then err bad_total
    else if leb total 4
        || (total == 5 && leb_ℤ (pos 15) target)
        || (total == 6 && leb_ℤ (pos 16) target)
    then ok critical_success
    else if total == 18 || (total == 17 && leb_ℤ target (pos 15)) || leb_ℤ margin (negsuc 9)
    then ok critical_failure
    else if total == 17
    then ok failure
    else if leb_ℤ (pos 5) margin
    then ok success_by_5_plus
    else if ltb_ℤ (pos 0) margin
    then ok success
    else if eqb_ℤ margin (pos 0)
    then ok exact_target
    else if leb_ℤ margin (negsuc 4)
    then ok failure_by_5_plus
    else ok failure

-- The sum of the faces.
unfoldable pub sum_faces : List ℕ → ℕ
sum_faces [] = 0
sum_faces (f ∷ fs) = f + sum_faces fs

-- The derived fields of a check: total, effective target, margin and outcome.
pub record Check : Type 0 where
  pub dice : List ℕ
  pub total : ℕ
  pub base_target : ℤ
  pub modifiers : List ℤ
  pub modifier_total : ℤ
  pub effective_target : ℤ
  pub margin : ℤ
  pub outcome : Outcome

-- `_three_d6_check` from its three faces.
unfoldable pub three_d6_check : ℕ → ℕ → ℕ → ℤ → List ℤ → Result DiceError Check
unfolding sum_faces
three_d6_check a b c base modifiers =
    let faces = a ∷ b ∷ c ∷ [] in
    let total = sum_faces faces in
    let modifier_total = sum_ℤ modifiers in
    let target = base +ℤ modifier_total in
    elim (classify_3d6 total target) [
      | err e ↦ err e
      | ok outcome ↦ ok (record {
        dice = faces;
        total = total;
        base_target = base;
        modifiers = modifiers;
        modifier_total = modifier_total;
        effective_target = target;
        margin = target -ℤ pos total;
        outcome = outcome;
      })
    ]
