-- ===== src/Stockflow/Price.antt =====
-- stockflow.py: `_price_after_need`, the answer of a market price to a need.
use baen_economy_engine.Prelude.{
  ◌≡◌, ◌⊎◌, inl, inr, refl, sym, Bool, true, false, Option, none, some, ok, err, ◌>>=◌, ◌>>◌,
  raise_if, if◌then◌else◌, Bool-cases, >>=-eq-ok, ok-inj, raise_if-ok,
}
use baen_economy_engine.Decimal.Number.{
  Decimal, zero_dec, one_dec, fraction, is_zero, le_dec, lt_dec, min_dec, max_dec,
}
use baen_economy_engine.Decimal.Context.{add, sub, mul, divide}
use baen_economy_engine.Decimal.Order.{Le, max-le, min-le_left, le-max_left, not_lt-le}
use baen_economy_engine.Stockflow.Types.{Sim, calc, untracked_price, bad_price, Commodity}

tracked : Bool → Option Decimal → Sim (Unit {0})
tracked false base = err untracked_price
tracked true none = err untracked_price
tracked true (some _) = ok tt

-- The factor before it is held between the floor and the ceiling.
unfoldable pub raw_factor : Commodity → Decimal → Decimal → Decimal → Sim Decimal
raw_factor c requested consumed closing_stock = do
  short ← calc (sub requested consumed)
  shortage ← calc (divide short requested)
  coverage ← calc (divide closing_stock requested)
  rise ← calc (mul c.elasticity shortage)
  raised ← calc (add one_dec rise)
  quarter ← calc (mul c.elasticity (fraction 25 2))
  fall ← calc (mul quarter (min_dec one_dec coverage))
  calc (sub raised fall)

-- `max(floor_factor, min(ceiling_factor, factor))`
abbrev pub held : Commodity → Decimal → Decimal
held c factor = max_dec c.floor_factor (min_dec c.ceiling_factor factor)

new_price : Commodity → Decimal → Decimal → Decimal → Decimal → Sim Decimal
unfolding raw_factor
new_price c requested consumed closing_stock current = if is_zero requested then ok current else do
  factor ← raw_factor c requested consumed closing_stock
  calc (mul current (held c factor))

price_from : Commodity → Decimal → Decimal → Decimal → Option Decimal → Sim Decimal
unfolding new_price
price_from c requested consumed closing_stock none = err bad_price
price_from c requested consumed closing_stock (some current) = do
  raise_if (le_dec current zero_dec) bad_price
  new_price c requested consumed closing_stock current

unfoldable pub price_after_need :
    Commodity → Decimal → Decimal → Decimal → Option Decimal → Sim Decimal
unfolding tracked price_from
price_after_need c requested consumed closing_stock current = do
  tracked c.market_price_enabled c.base_price
  price_from c requested consumed closing_stock current

tracked-enabled : (b : Bool) (base : Option Decimal) → tracked b base ≡ ok tt → b ≡ true
unfolding tracked
tracked-enabled true base h = refl
tracked-enabled false base h = cc

-- The factor that is applied is at least the floor, and at most the ceiling where the floor is.
held-Le :
    (c : Commodity) (factor : Decimal)
    → lt_dec c.ceiling_factor c.floor_factor ≡ false
    → Le c.floor_factor (held c factor) × Le (held c factor) c.ceiling_factor
held-Le c factor h = (
  le-max_left c.floor_factor (min_dec c.ceiling_factor factor),
  max-le c.floor_factor (min_dec c.ceiling_factor factor) c.ceiling_factor
      (not_lt-le c.ceiling_factor c.floor_factor h) (min-le_left c.ceiling_factor factor),
)

-- The new price is the current price times a factor between the commodity's floor and ceiling.
abbrev pub IsHeld : Commodity → Decimal → Decimal → Type 0
IsHeld c current price =
    (f : Decimal) × Le c.floor_factor f × Le f c.ceiling_factor × (calc (mul current f) ≡ ok price)

abbrev pub IsAnswer : Commodity → Decimal → Decimal → Decimal → Type 0
IsAnswer c requested current price =
    ((is_zero requested ≡ true) × (price ≡ current))
    ⊎ ((is_zero requested ≡ false) × IsHeld c current price)

new_price-IsAnswer :
    (c : Commodity) (requested consumed closing_stock current price : Decimal)
    → lt_dec c.ceiling_factor c.floor_factor ≡ false
    → new_price c requested consumed closing_stock current ≡ ok price
    → IsAnswer c requested current price
unfolding new_price
new_price-IsAnswer c requested consumed closing_stock current price h r =
    elim (Bool-cases (is_zero requested)) [
      | inl e ↦ inl (e, sym (ok-inj (rw e at r)))
      | inr e ↦
          let (factor, _, k) =
            >>=-eq-ok (raw_factor c requested consumed closing_stock) _ (rw e at r) in
          let bounds = held-Le c factor h in inr (e, (held c factor, bounds.0, bounds.1, k))
    ]

price_from-IsAnswer :
    (c : Commodity) (requested consumed closing_stock price : Decimal) (current : Option Decimal)
    → lt_dec c.ceiling_factor c.floor_factor ≡ false
    → price_from c requested consumed closing_stock current ≡ ok price
    → (now : Decimal) × (current ≡ some now)
      × (le_dec now zero_dec ≡ false)
      × IsAnswer c requested now price
unfolding price_from
price_from-IsAnswer c requested consumed closing_stock price none h k = cc
price_from-IsAnswer c requested consumed closing_stock price (some now) h k =
    let (positive, k') = raise_if-ok (le_dec now zero_dec) bad_price _ k in
    (now, refl, positive, new_price-IsAnswer c requested consumed closing_stock now price h k')

-- A commodity's price after a need exists only where its market price is enabled, and the current
-- price is known and above zero. For a commodity whose ceiling is not below its floor, it is the
-- current price where nothing was requested, and else the current price times a factor from the
-- floor to the ceiling, in the engine's arithmetic.
pub price_after_need-IsAnswer :
    (c : Commodity) (requested consumed closing_stock price : Decimal) (current : Option Decimal)
    → lt_dec c.ceiling_factor c.floor_factor ≡ false
    → price_after_need c requested consumed closing_stock current ≡ ok price
    → (c.market_price_enabled ≡ true)
      × ((now : Decimal) × (current ≡ some now)
          × (le_dec now zero_dec ≡ false)
          × IsAnswer c requested now price)
unfolding price_after_need
price_after_need-IsAnswer c requested consumed closing_stock price current h r =
    let (_, t, k) = >>=-eq-ok (tracked c.market_price_enabled c.base_price) _ r in
    (
      tracked-enabled c.market_price_enabled c.base_price t,
      price_from-IsAnswer c requested consumed closing_stock price current h k,
    )
