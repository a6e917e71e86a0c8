-- ===== src/Stockflow/Production.antt =====
-- stockflow.py: the production loop of `_advance`. An order runs as many batches as the request, the
-- recipe's capacity, the site's labor and the free inputs allow.
pub mod Bounds
use Prim.Native.Nat.{Ordering}
use Prim.Native.String.{compare as compare_text}
use baen_economy_engine.Prelude.{
  ℕ, Bool, true, false, not, Option, none, some, String, List, [], ◌∷◌, ◌++◌, Result, ok, err,
  ◌>>=◌, ◌>>◌, raise_if, if◌then◌else◌,
}
use baen_economy_engine.Prelude.Int.{ℤ, pos}
use baen_economy_engine.Prelude.Dict.{Dict, lookup, insert, string_eq, pair_eq}
use baen_economy_engine.Prelude.Text.{codes}
use baen_economy_engine.Decimal.Number.{Decimal, zero_dec, is_zero, lt_dec, min_dec, max_dec}
use baen_economy_engine.Decimal.Context.{sub, mul, divide}
use baen_economy_engine.Stockflow.Types.{
  Sim, calc, SimulationError, negative_request, unknown_recipe, unknown_site, FlowKind,
  recipe_input, production, MaterialFlow, Recipe, EconomyModel, ProductionOrder, ProductionResult,
}
use baen_economy_engine.Stockflow.Sorting.{
  ◌then_by◌, compare_dec, compare_int, text_or_empty, sorted,
}
use baen_economy_engine.Stockflow.Books.{
  Books, amount, credit, debit, free_stock, credit_stock, debit_stock, record_flow, recipes_of,
}

-- `recipes[item.recipe_id].priority if item.recipe_id in recipes else 10**9`
abbrev pub priority_of : Option Recipe → ℤ
priority_of none = pos 1000000000
priority_of (some r) = r.priority

abbrev pub compare_production : Dict String Recipe → ProductionOrder → ProductionOrder → Ordering
compare_production recipes a b =
    compare_int (priority_of (lookup a.recipe_id recipes))
      (priority_of (lookup b.recipe_id recipes))
    then_by compare_text a.recipe_id b.recipe_id
    then_by compare_dec a.requested_batches b.requested_batches
    then_by compare_text (text_or_empty a.authorizing_event_id)
        (text_or_empty b.authorizing_event_id)

-- `labor_remaining[site_id]`; every site of a valid model has an entry.
labor_at : Option Decimal → Sim Decimal
labor_at none = err unknown_site
labor_at (some v) = ok v

limit_by_labor : Recipe → Books → Decimal → Sim Decimal
unfolding labor_at
limit_by_labor r b feasible = if is_zero r.labor_per_batch then ok feasible else do
  labor ← labor_at (lookup r.site_id b.labor_remaining)
  batches ← calc (divide labor r.labor_per_batch)
  ok (min_dec feasible batches)

-- The loop over the inputs that lowers `feasible`.
limit_by_inputs : Recipe → List (String × Decimal) → Books → Decimal → Sim Decimal
limit_by_inputs r [] b feasible = ok feasible
limit_by_inputs r ((commodity, per_batch) ∷ inputs) b feasible = do
  free ← free_stock (r.site_id, commodity) b
  batches ← calc (divide free per_batch)
  limit_by_inputs r inputs b (min_dec feasible batches)

-- The batches that an order runs.
unfoldable pub feasible_batches : Recipe → Decimal → Books → Sim Decimal
unfolding limit_by_labor limit_by_inputs
feasible_batches r requested b = do
  remaining ← calc (sub r.max_batches (amount r.recipe_id b.recipe_batches_used))
  by_labor ← limit_by_labor r b (min_dec requested (max_dec zero_dec remaining))
  by_inputs ← limit_by_inputs r r.inputs b by_labor
  ok (max_dec zero_dec by_inputs)

abbrev recipe_flow : FlowKind → Recipe → String → Decimal → MaterialFlow
recipe_flow kind r commodity quantity = record {
  kind = kind;
  site_id = r.site_id;
  commodity_id = commodity;
  quantity = quantity;
  reference_id = codes r.recipe_id;
}

take_inputs : Recipe → Decimal → List (String × Decimal) → Books → Sim Books
take_inputs r feasible [] b = ok b
take_inputs r feasible ((commodity, per_batch) ∷ inputs) b = do
  quantity ← calc (mul per_batch feasible)
  b ← debit_stock (r.site_id, commodity) quantity b
  totals ← credit commodity quantity b.recipe_inputs
  take_inputs r feasible inputs (
      record_flow (recipe_flow recipe_input r commodity quantity)
        (record b { recipe_inputs = totals }))

add_outputs : Recipe → Decimal → List (String × Decimal) → Books → Sim Books
add_outputs r feasible [] b = ok b
add_outputs r feasible ((commodity, per_batch) ∷ outputs) b = do
  quantity ← calc (mul per_batch feasible)
  b ← credit_stock (r.site_id, commodity) quantity b
  totals ← credit commodity quantity b.produced
  add_outputs r feasible outputs
      (record_flow (recipe_flow production r commodity quantity) (record b { produced = totals }))

-- The labor, the recipe's batches and the result of an order.
book_batches : Recipe → Decimal → Decimal → Books → Sim Books
unfolding labor_at
book_batches r requested feasible b = do
  used ← calc (mul r.labor_per_batch feasible)
  labor ← labor_at (lookup r.site_id b.labor_remaining)
  left ← calc (sub labor used)
  labor_used ← credit r.site_id used b.labor_used
  batches_used ← credit r.recipe_id feasible b.recipe_batches_used
  ok (record b {
    labor_remaining = insert r.site_id left b.labor_remaining;
    labor_used = labor_used;
    recipe_batches_used = batches_used;
    production_results =
        b.production_results
        ++ (record {
          recipe_id = r.recipe_id;
          requested_batches = requested;
          actual_batches = feasible;
        }
            ∷ []);
  })

run_recipe : Recipe → Decimal → Books → Sim Books
unfolding feasible_batches take_inputs add_outputs book_batches
run_recipe r requested b = do
  feasible ← feasible_batches r requested b
  b ← take_inputs r feasible r.inputs b
  b ← add_outputs r feasible r.outputs b
  book_batches r requested feasible b

run_known : Option Recipe → Decimal → Books → Sim Books
unfolding run_recipe
run_known none requested b = err unknown_recipe
run_known (some r) requested b = run_recipe r requested b

-- The body of the loop for one order.
unfoldable pub produce : Dict String Recipe → ProductionOrder → Books → Sim Books
unfolding run_known
produce recipes order b = do
  raise_if (lt_dec order.requested_batches zero_dec) negative_request
  run_known (lookup order.recipe_id recipes) order.requested_batches b

unfoldable pub produce_each : Dict String Recipe → List ProductionOrder → Books → Sim Books
unfolding produce
produce_each recipes [] b = ok b
produce_each recipes (order ∷ orders) b = do
  b ← produce recipes order b
  produce_each recipes orders b

-- `for order in sorted(plan.production_orders, key=...): ...`
unfoldable pub production_phase : EconomyModel → List ProductionOrder → Books → Sim Books
unfolding produce_each
production_phase m orders b =
    produce_each (recipes_of m) (sorted (compare_production (recipes_of m)) orders) b
