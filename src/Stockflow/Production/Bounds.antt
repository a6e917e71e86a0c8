-- ===== src/Stockflow/Production/Bounds.antt =====
-- stockflow.py: the batches that a production order runs are within its limits.
use baen_economy_engine.Prelude.{
  ◌≡◌, subst, false, String, List, [], ◌∷◌, ok, Bool-cases, inl, inr, >>=-eq-ok, ok-inj,
}
use baen_economy_engine.Prelude.Dict.{lookup, string_eq, pair_eq}
use baen_economy_engine.Decimal.Number.{Decimal, zero_dec, is_zero, lt_dec, min_dec, max_dec}
use baen_economy_engine.Decimal.Context.{sub, divide}
use baen_economy_engine.Decimal.Order.{
  Le, le_refl, le_trans, max-le, min-le_left, min-le_right, le-max_left, le-max_right, not_lt-le,
}
use baen_economy_engine.Stockflow.Types.{calc, Recipe}
use baen_economy_engine.Stockflow.Books.{Books, amount, free_stock}
use baen_economy_engine.Stockflow.Production.{
  labor_at, limit_by_labor, limit_by_inputs, feasible_batches,
}

limit_by_labor-Le :
    (r : Recipe) (b : Books) (feasible limited : Decimal)
    → limit_by_labor r b feasible ≡ ok limited
    → Le limited feasible
unfolding limit_by_labor
limit_by_labor-Le r b feasible limited h = elim (Bool-cases (is_zero r.labor_per_batch)) [
  | inl e ↦ subst (λ x. Le x feasible) (ok-inj (rw e at h)) (le_refl feasible)
  | inr e ↦
      let (labor, _, h1) =
        >>=-eq-ok (labor_at (lookup r.site_id b.labor_remaining)) _ (rw e at h) in
      let (batches, _, h2) = >>=-eq-ok (calc (divide labor r.labor_per_batch)) _ h1 in
      subst (λ x. Le x feasible) (ok-inj h2) (min-le_left feasible batches)
]

-- The quotient of the free stock by the need of each input is a limit.
abbrev pub IsLimited : Recipe → Books → Decimal → List (String × Decimal) → Type 0
IsLimited r b q [] = Unit
IsLimited r b q ((commodity, per_batch) ∷ inputs) =
    ((free : Decimal) × (batches : Decimal) × (free_stock (r.site_id, commodity) b ≡ ok free)
      × (calc (divide free per_batch) ≡ ok batches)
      × Le q (max_dec zero_dec batches))
    × IsLimited r b q inputs

limit_by_inputs-IsLimited :
    (r : Recipe) (inputs : List (String × Decimal)) (b : Books) (feasible limited : Decimal)
    → limit_by_inputs r inputs b feasible ≡ ok limited
    → Le limited feasible × IsLimited r b (max_dec zero_dec limited) inputs
unfolding limit_by_inputs
limit_by_inputs-IsLimited r [] b feasible limited h =
    (subst (λ x. Le x feasible) (ok-inj h) (le_refl feasible), tt)
limit_by_inputs-IsLimited r ((commodity, per_batch) ∷ inputs) b feasible limited h =
    let (free, e1, h1) = >>=-eq-ok (free_stock (r.site_id, commodity) b) _ h in
    let (batches, e2, h2) = >>=-eq-ok (calc (divide free per_batch)) _ h1 in
    let rest = limit_by_inputs-IsLimited r inputs b (min_dec feasible batches) limited h2 in
    (
      le_trans limited _ feasible rest.0 (min-le_left feasible batches),
      (
        (
          free,
          batches,
          e1,
          e2,
          max-le zero_dec limited (max_dec zero_dec batches) (le-max_left zero_dec batches) (
              le_trans limited _ _ rest.0 (
                le_trans _ batches _ (min-le_right feasible batches)
                  (le-max_right zero_dec batches))),
        ),
        rest.1,
      ),
    )

-- For a request that is not negative, the batches of a recipe are at least zero and at most the
-- request, at most what is left of the recipe's batches, and for each input at most the free stock
-- divided by the input's quantity per batch, each counted as zero when below it.
pub feasible_batches-IsLimited :
    (r : Recipe) (requested : Decimal) (b : Books) (q : Decimal)
    → lt_dec requested zero_dec ≡ false
    → feasible_batches r requested b ≡ ok q
    → Le zero_dec q
      × Le q requested
      × ((remaining : Decimal) × (calc
              (sub r.max_batches (amount r.recipe_id b.recipe_batches_used))
            ≡ ok remaining)
          × Le q (max_dec zero_dec remaining))
      × IsLimited r b q r.inputs
unfolding feasible_batches
feasible_batches-IsLimited r requested b q nonneg h =
    let (remaining, e1, h1) =
      >>=-eq-ok (calc (sub r.max_batches (amount r.recipe_id b.recipe_batches_used))) _ h in
    let start = min_dec requested (max_dec zero_dec remaining) in
    let (by_labor, e2, h2) = >>=-eq-ok (limit_by_labor r b start) _ h1 in
    let (by_inputs, e3, h3) = >>=-eq-ok (limit_by_inputs r r.inputs b by_labor) _ h2 in
    let inputs = limit_by_inputs-IsLimited r r.inputs b by_labor by_inputs e3 in
    let low : Le by_inputs start =
      le_trans by_inputs by_labor start inputs.0 (limit_by_labor-Le r b start by_labor e2) in
    let result : max_dec zero_dec by_inputs ≡ q = ok-inj h3 in
    subst
      (λ x.
        Le zero_dec x
        × Le x requested
        × ((remaining : Decimal) × (calc
                (sub r.max_batches (amount r.recipe_id b.recipe_batches_used))
              ≡ ok remaining)
            × Le x (max_dec zero_dec remaining))
        × IsLimited r b x r.inputs)
      result
      (
        le-max_left zero_dec by_inputs,
        max-le zero_dec by_inputs requested (not_lt-le requested zero_dec nonneg)
            (le_trans by_inputs start requested low (min-le_left requested _)),
        (
          remaining,
          e1,
          max-le zero_dec by_inputs (max_dec zero_dec remaining) (le-max_left zero_dec remaining)
              (le_trans by_inputs start _ low (min-le_right requested _)),
        ),
        inputs.1,
      )
