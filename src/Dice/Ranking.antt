-- ===== src/Dice/Ranking.antt =====
-- A better roll never gives a worse class, a lower revenue factor or a higher expense factor.
use baen_economy_engine.Prelude.{ℕ, ◌+◌, ◌≤◌, ◌<◌, ◌≡◌, ◌≢◌, ◌⊎◌, arith, ok, some}
use baen_economy_engine.Prelude.Int.{ℤ, pos, ◌-ℤ◌, -ℤ_parts, pos_part, neg_part}
use baen_economy_engine.Decimal.Number.{Decimal, le_dec}
use baen_economy_engine.Decimal.Order.{Le}
use baen_economy_engine.Dice.Classify.{
  Outcome, critical_success, success_by_5_plus, success, exact_target, failure, failure_by_5_plus,
  critical_failure, classify_3d6,
}
use baen_economy_engine.Dice.Factors.{
  revenue_factor, expense_factor, classified_factors, revenue_table, expense_table,
}

-- No critical success and no critical failure, for a target of `up - down`.
abbrev NoSuccess : ℕ → ℕ → ℕ → Type 0
NoSuccess total up down = (5 ≤ total) × (total ≡ 5 → up < 15 + down) × (total ≡ 6 → up < 16 + down)

abbrev NoFailure : ℕ → ℕ → ℕ → Type 0
NoFailure total up down = (total ≤ 17) × (total ≡ 17 → 15 + down < up) × (total + down < up + 10)

-- What the ladder of `classify_3d6` has established for each class.
abbrev Means : Outcome → ℕ → ℕ → ℕ → Type 0
Means critical_success total up down =
    (total ≤ 4) ⊎ (((total ≡ 5) × (15 + down ≤ up)) ⊎ ((total ≡ 6) × (16 + down ≤ up)))
Means critical_failure total up down =
    NoSuccess total up down
    × (total ≤ 18)
    × ((total ≡ 18) ⊎ (((total ≡ 17) × (up ≤ 15 + down)) ⊎ (up + 10 ≤ total + down)))
Means failure total up down =
    NoSuccess total up down
    × NoFailure total up down
    × ((total ≡ 17) ⊎ ((up < total + down) × (total + down < up + 5)))
Means success_by_5_plus total up down =
    NoSuccess total up down × NoFailure total up down × (total ≢ 17) × (total + down + 5 ≤ up)
Means success total up down =
    NoSuccess total up down
    × NoFailure total up down
    × (total ≢ 17)
    × (total + down < up)
    × (up < total + down + 5)
Means exact_target total up down =
    NoSuccess total up down × NoFailure total up down × (total ≢ 17) × (total + down ≡ up)
Means failure_by_5_plus total up down =
    NoSuccess total up down × NoFailure total up down × (total ≢ 17) × (up + 5 ≤ total + down)

classify-Means :
    (o : Outcome) (total : ℕ) (target : ℤ)
    → classify_3d6 total target ≡ ok o
    → Means o total (pos_part target) (neg_part target)
unfolding classify_3d6
classify-Means critical_success total target h = ground (arith, -ℤ_parts target (pos total))
classify-Means _ total target h = ground (arith, -ℤ_parts target (pos total))

-- The order of the classes from best to worst.
rank : Outcome → ℕ
rank critical_success = 0
rank success_by_5_plus = 1
rank success = 2
rank exact_target = 3
rank failure = 4
rank failure_by_5_plus = 5
rank critical_failure = 6

Means-rank :
    (o p : Outcome) (t u up down : ℕ)
    → t ≤ u
    → Means o t up down
    → Means p u up down
    → rank o ≤ rank p
unfolding rank
Means-rank critical_success p t u up down l h k = omega arith
Means-rank _ critical_success t u up down l h k = ground arith
Means-rank _ _ t u up down l h k = ground arith

revenue_table_mono : (o p : Outcome) → rank o ≤ rank p → Le (revenue_table p) (revenue_table o)
unfolding rank revenue_table le_dec
revenue_table_mono critical_success p h = ground arith
revenue_table_mono _ critical_success h = ground arith
revenue_table_mono _ _ h = ground arith

expense_table_mono : (o p : Outcome) → rank o ≤ rank p → Le (expense_table o) (expense_table p)
unfolding rank expense_table le_dec
expense_table_mono critical_success p h = ground arith
expense_table_mono _ critical_success h = ground arith
expense_table_mono _ _ h = ground arith

-- The two factors that a check with this total and target gives.
abbrev pub Factors : ℕ → ℤ → Outcome → Decimal → Decimal → Type 0
Factors total target o revenue expense =
    (revenue_factor o (some (target -ℤ pos total)) ≡ ok revenue)
    × (expense_factor o (some (target -ℤ pos total)) ≡ ok expense)

-- Against one target a roll that is no higher has both its factors, a revenue factor that is no
-- lower and an expense factor that is no higher.
pub better_roll :
    (t u : ℕ) (target : ℤ) (o p : Outcome)
    → t ≤ u
    → classify_3d6 t target ≡ ok o
    → classify_3d6 u target ≡ ok p
    → Factors t target o (revenue_table o) (expense_table o)
      × Factors u target p (revenue_table p) (expense_table p)
      × Le (revenue_table p) (revenue_table o)
      × Le (expense_table o) (expense_table p)
better_roll t u target o p l h k =
    let r =
      Means-rank o p t u (pos_part target) (neg_part target) l (classify-Means o t target h)
        (classify-Means p u target k) in
    (
      classified_factors t target o h,
      classified_factors u target p k,
      revenue_table_mono o p r,
      expense_table_mono o p r,
    )
