-- ===== src/Stockflow/Closing/Conserved.antt =====
-- stockflow.py: what the closing checks of a run establish.
use baen_economy_engine.Prelude.{
  ◌≡◌, refl, arith, true, false, ◌||◌, not, Option, none, some, String, List, [], ◌∷◌, ok,
  >>=-eq-ok, raise_if-ok, All,
}
use baen_economy_engine.Prelude.Dict.{Dict, lookup, string_eq, pair_eq}
use baen_economy_engine.Decimal.Number.{Decimal, zero_dec, is_zero, lt_dec}
use baen_economy_engine.Decimal.Order.{Le, not_lt-le}
use baen_economy_engine.Stockflow.Types.{
  SimulationError, calc, InventoryPosition, TransitLot, reservation_exceeds, labor_escaped,
  stock_escaped, route_oversubscribed, not_conserved, Route, EconomyModel,
}
use baen_economy_engine.Stockflow.Books.{Books, StockKey, amount, routes_of, calc-ok}
use baen_economy_engine.Decimal.Context.{add, sub, fix}
use baen_economy_engine.Decimal.Sums.{Summed}
use baen_economy_engine.Stockflow.Closing.Totals.{
  holdings, commodity_totals-Summed, commodity_ids-none,
}
use baen_economy_engine.Stockflow.Closing.{
  no_negative, covered, over_capacity, within_capacity, check_books, residual, conservation,
  commodity_totals, commodity_ids,
}

abbrev pub IsNonNegative {ℓ} : {K : Type ℓ} → K × Decimal → Type 0
IsNonNegative (k, v) = Le zero_dec v

no_negative-All {ℓ} :
    {K : Type ℓ} (e : SimulationError) (d : Dict K Decimal)
    → no_negative e d ≡ ok tt
    → All IsNonNegative d
unfolding no_negative
no_negative-All e [] h = tt
no_negative-All e ((k, v) ∷ d) h =
    let (sign, h1) = raise_if-ok (lt_dec v zero_dec) e _ h in
    (not_lt-le v zero_dec sign, no_negative-All e d h1)

-- A reservation from zero up to the stock of its key.
abbrev pub IsCovered : Dict StockKey Decimal → StockKey × Decimal → Type 0
IsCovered inventory (key, reserved) = Le zero_dec reserved × Le reserved (amount key inventory)

covered-All :
    (inventory d : Dict StockKey Decimal)
    → covered inventory d ≡ ok tt
    → All (IsCovered inventory) d
unfolding covered
covered-All inventory [] h = tt
covered-All inventory ((key, reserved) ∷ d) h =
    let (bad, h1) =
      raise_if-ok (lt_dec reserved zero_dec || lt_dec (amount key inventory) reserved)
        reservation_exceeds _ h in
    (
      (
        not_lt-le reserved zero_dec (ground arith),
        not_lt-le (amount key inventory) reserved (ground arith),
      ),
      covered-All inventory d h1,
    )

-- A route that is known and not used beyond its capacity.
abbrev pub IsWithinCapacity : Dict String Route → String × Decimal → Type 0
IsWithinCapacity routes (id, used) =
    (r : Route) × (lookup id routes ≡ some r) × Le used r.capacity_per_period

over_capacity-Le :
    (o : Option Route) (used : Decimal)
    → over_capacity o used ≡ false
    → (r : Route) × (o ≡ some r) × Le used r.capacity_per_period
unfolding over_capacity
over_capacity-Le none used h = cc
over_capacity-Le (some r) used h = (r, refl, not_lt-le r.capacity_per_period used h)

within_capacity-All :
    (routes : Dict String Route) (d : Dict String Decimal)
    → within_capacity routes d ≡ ok tt
    → All (IsWithinCapacity routes) d
unfolding within_capacity
within_capacity-All routes [] h = tt
within_capacity-All routes ((id, used) ∷ d) h =
    let (within, h1) =
      raise_if-ok (over_capacity (lookup id routes) used) route_oversubscribed _ h in
    (over_capacity-Le (lookup id routes) used within, within_capacity-All routes d h1)

-- No stock and no labor below zero, reservations covered by stock, routes within their capacity.
abbrev pub IsBalanced : EconomyModel → Books → Type 0
IsBalanced m b =
    All IsNonNegative b.inventory
    × All (IsCovered b.inventory) b.reserved
    × All IsNonNegative b.labor_remaining
    × All (IsWithinCapacity (routes_of m)) b.route_used

pub check_books-IsBalanced :
    (m : EconomyModel) (b : Books) → check_books m b ≡ ok tt → IsBalanced m b
unfolding check_books
check_books-IsBalanced m b h =
    let (_, stock, h1) = >>=-eq-ok (no_negative stock_escaped b.inventory) _ h in
    let (_, reserved, h2) = >>=-eq-ok (covered b.inventory b.reserved) _ h1 in
    let (_, labor, h3) = >>=-eq-ok (no_negative labor_escaped b.labor_remaining) _ h2 in
    (
      no_negative-All stock_escaped b.inventory stock,
      covered-All b.inventory b.reserved reserved,
      no_negative-All labor_escaped b.labor_remaining labor,
      within_capacity-All (routes_of m) b.route_used h3,
    )

-- What is there at the start, plus what is made, less what recipes, needs and routes take, less what
-- is there at the end, comes to zero in the engine's arithmetic.
abbrev pub Evens : Decimal → Decimal → Decimal → Decimal → Decimal → Decimal → Type 0
Evens start produced inputs consumed losses left =
    (made : Decimal) × (after_inputs : Decimal) × (after_needs : Decimal) × (expected : Decimal)
    × (rest : Decimal) × (add start produced ≡ ok made)
    × (sub made inputs ≡ ok after_inputs)
    × (sub after_inputs consumed ≡ ok after_needs)
    × (sub after_needs losses ≡ ok expected)
    × (sub expected left ≡ ok rest)
    × (is_zero rest ≡ true)

abbrev IsEven : Dict String Decimal → Dict String Decimal → Books → String → Type 0
IsEven opening closing b id =
    Evens (amount id opening) (amount id b.produced) (amount id b.recipe_inputs)
      (amount id b.consumed) (amount id b.losses) (amount id closing)

residual-Evens :
    (opening closing : Dict String Decimal) (b : Books) (id : String) (r : Decimal)
    → residual opening closing b id ≡ ok r
    → is_zero r ≡ true
    → IsEven opening closing b id
unfolding residual
residual-Evens opening closing b id r h zero =
    let (made, e1, h1) = >>=-eq-ok (calc (add (amount id opening) (amount id b.produced))) _ h in
    let (after_inputs, e2, h2) = >>=-eq-ok (calc (sub made (amount id b.recipe_inputs))) _ h1 in
    let (after_needs, e3, h3) = >>=-eq-ok (calc (sub after_inputs (amount id b.consumed))) _ h2 in
    let (expected, e4, h4) = >>=-eq-ok (calc (sub after_needs (amount id b.losses))) _ h3 in
    (
      made,
      after_inputs,
      after_needs,
      expected,
      r,
      calc-ok _ e1,
      calc-ok _ e2,
      calc-ok _ e3,
      calc-ok _ e4,
      calc-ok _ h4,
      zero,
    )

conservation-IsEven :
    (opening closing : Dict String Decimal) (b : Books) (ids : List String)
    (rs : List (String × Decimal))
    → conservation opening closing b ids ≡ ok rs
    → All (IsEven opening closing b) ids
unfolding conservation
conservation-IsEven opening closing b [] rs h = tt
conservation-IsEven opening closing b (id ∷ ids) rs h =
    let (r, e, h1) = >>=-eq-ok (residual opening closing b id) _ h in
    let (zero, h2) = raise_if-ok (not (is_zero r)) not_conserved _ h1 in
    let (rest, e2, _) = >>=-eq-ok (conservation opening closing b ids) _ h2 in
    (
      residual-Evens opening closing b id r e (ground (arith, zero)),
      conservation-IsEven opening closing b ids rest e2,
    )

nothing-Evens : Evens zero_dec zero_dec zero_dec zero_dec zero_dec zero_dec
unfolding add sub fix is_zero
nothing-Evens =
    (zero_dec, zero_dec, zero_dec, zero_dec, zero_dec, refl, refl, refl, refl, refl, refl)

absent-IsEven :
    (opening closing : Dict String Decimal) (b : Books) (id : String)
    → lookup id opening ≡ none
    → lookup id closing ≡ none
    → lookup id b.produced ≡ none
    → lookup id b.recipe_inputs ≡ none
    → lookup id b.consumed ≡ none
    → lookup id b.losses ≡ none
    → IsEven opening closing b id
unfolding amount
absent-IsEven opening closing b id first last made put used lost =
    rw (first, last, made, put, used, lost) nothing-Evens

-- The sums of one commodity over what is held before and after, with the totals of the books.
abbrev pub IsConserved : List (String × Decimal) → List (String × Decimal) → Books → String → Type 0
IsConserved before after b id =
    (start : Decimal) × (left : Decimal) × Summed id before zero_dec start
    × Summed id after zero_dec left
    × Evens start (amount id b.produced) (amount id b.recipe_inputs) (amount id b.consumed)
        (amount id b.losses) left

pub conservation-IsConserved :
    (before after : List InventoryPosition) (lots : List TransitLot)
    (opening closing : Dict String Decimal) (b : Books) (rs : List (String × Decimal))
    → commodity_totals before lots ≡ ok opening
    → commodity_totals after b.transit ≡ ok closing
    → conservation opening closing b (commodity_ids opening closing b) ≡ ok rs
    → (id : String) → IsConserved (holdings before lots) (holdings after b.transit) b id
conservation-IsConserved before after lots opening closing b rs start left h id = (
  amount id opening,
  amount id closing,
  commodity_totals-Summed id before lots opening start,
  commodity_totals-Summed id after b.transit closing left,
  commodity_ids-none id opening closing b (IsEven opening closing b)
      (conservation-IsEven opening closing b (commodity_ids opening closing b) rs h)
      (absent-IsEven opening closing b id),
)
