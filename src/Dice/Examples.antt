-- ===== src/Dice/Examples.antt =====
-- Runs of the dice, and the theorems at concrete inputs.
use baen_economy_engine.Prelude.{ℕ, ◌+◌, ◌-◌, ◌/◌, ◌%◌, ◌<◌, ◌*◌, ◌≡◌, refl, ok, err, some, arith}
use baen_economy_engine.Prelude.Int.{pos, ◌-ℤ◌}
use baen_economy_engine.Decimal.Order.{Le}
use baen_economy_engine.Dice.Classify.{
  success, critical_success, critical_failure, failure, exact_target, classify_3d6, bad_total,
}
use baen_economy_engine.Dice.Factors.{revenue_table, expense_table}
use baen_economy_engine.Dice.Ranking.{Factors, better_roll}
use baen_economy_engine.Dice.Sampling.{
  draw, limit_of, draw_first, sampling_unbiased, count_face, modulus,
}

classify_runs :
    (classify_3d6 5 (pos 15) ≡ ok critical_success)
    × (classify_3d6 17 (pos 30) ≡ ok failure)
    × (classify_3d6 16 (pos 6) ≡ ok critical_failure)
    × (classify_3d6 15 (pos 15) ≡ ok exact_target)
    × (classify_3d6 19 (pos 15) ≡ err bad_total)
unfolding classify_3d6 ◌-ℤ◌
classify_runs = (refl, refl, refl, refl, refl)

success_run : classify_3d6 12 (pos 15) ≡ ok success
unfolding classify_3d6 ◌-ℤ◌
success_run = refl

failure_run : classify_3d6 17 (pos 16) ≡ ok failure
unfolding classify_3d6 ◌-ℤ◌
failure_run = refl

better_roll_example :
    Factors 12 (pos 16) success (revenue_table success) (expense_table success)
    × Factors 17 (pos 16) failure (revenue_table failure) (expense_table failure)
    × Le (revenue_table failure) (revenue_table success)
    × Le (expense_table success) (expense_table failure)
unfolding classify_3d6 ◌-ℤ◌
better_roll_example = better_roll 12 17 (pos 16) success failure (omega arith) refl refl

-- The first sample is rejected and the second accepted.
abbrev samples : ℕ → ℕ
samples n = 18446744073709551615 - n * 4

draw_first_example : draw samples 6 3 0 ≡ some (samples (0 + 1) % 6 + 1)
draw_first_example = draw_first samples 6 1 3 0 (omega arith) (λ j l. omega arith) (omega arith)

draw_run : draw samples 6 3 0 ≡ some 6
unfolding draw
draw_run = refl

sampling_unbiased_example : (count_face 6 4 (limit_of 6) ≡ modulus / 6) × (modulus < 2 * limit_of 6)
sampling_unbiased_example = sampling_unbiased 6 4 (omega arith) (omega arith) (omega arith)
