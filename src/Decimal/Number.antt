-- ===== src/Decimal/Number.antt =====
-- A finite `Decimal`: a sign, a coefficient and an exponent. The exponent is counted from the least
-- exponent that the interpreter's decimal library stores (MIN_ETINY, `bias` below zero), so it is
-- a natural number: the value is `± coefficient * 10 ^ (exponent - bias)`.
use baen_economy_engine.Prelude.{
  ℕ, ◌+◌, ◌-◌, ◌*◌, ◌^◌, Bool, false, leb, ltb, ◌==◌, if◌then◌else◌, not,
}

pub record Decimal : Type 0 where
  pub negative : Bool
  pub coefficient : ℕ
  pub exponent : ℕ

abbrev pub bias : ℕ
bias = 1999999999999999997

-- `Decimal(n)`
abbrev pub whole : ℕ → Decimal
whole n = record { negative = false; coefficient = n; exponent = bias }

-- `Decimal("...")` of `n` with `places` digits behind the point.
abbrev pub fraction : ℕ → ℕ → Decimal
fraction n places = record { negative = false; coefficient = n; exponent = bias - places }

abbrev pub zero_dec : Decimal
zero_dec = whole 0

abbrev pub one_dec : Decimal
one_dec = whole 1

-- The coefficient of `a` at the lesser exponent of `a` and `b`.
abbrev pub aligned : Decimal → Decimal → ℕ
aligned a b = a.coefficient * 10 ^ (a.exponent - b.exponent)

-- A number by its sign: itself above zero, or itself below zero.
abbrev pub above : Bool → ℕ → ℕ
above negative n = if negative then 0 else n

abbrev pub below : Bool → ℕ → ℕ
below negative n = if negative then n else 0

-- The exact comparisons `a <= b`, `a < b` and `a == b`.
unfoldable pub le_dec : Decimal → Decimal → Bool
le_dec a b =
    let x = aligned a b in
    let y = aligned b a in
    leb (above a.negative x + below b.negative y) (above b.negative y + below a.negative x)

unfoldable pub lt_dec : Decimal → Decimal → Bool
unfolding le_dec
lt_dec a b = not (le_dec b a)

unfoldable pub eq_dec : Decimal → Decimal → Bool
eq_dec a b =
    let x = aligned a b in
    let y = aligned b a in
    (above a.negative x + below b.negative y) == (above b.negative y + below a.negative x)

-- `value < 0`, `value == 0` and `bool(value)`
unfoldable pub is_negative : Decimal → Bool
is_negative a = if a.negative then ltb 0 a.coefficient else false

unfoldable pub is_zero : Decimal → Bool
is_zero a = a.coefficient == 0

-- Python's `min(a, b)` and `max(a, b)`: of equals the first.
unfoldable pub min_dec : Decimal → Decimal → Decimal
unfolding lt_dec
min_dec a b = if lt_dec b a then b else a

unfoldable pub max_dec : Decimal → Decimal → Decimal
unfolding lt_dec
max_dec a b = if lt_dec a b then b else a
