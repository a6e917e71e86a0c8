-- ===== src/Decimal/Next.antt =====
-- `Context.next_minus` of the 40-digit context: the greatest number below, among those that the
-- context can store. A number above the greatest of these is not given to it.
pub mod Digits
pub mod Descent
use baen_economy_engine.Prelude.{
  ℕ, ◌+◌, ◌-◌, ◌*◌, ◌/◌, ◌%◌, ◌^◌, max, Bool, true, false, ◌&&◌, ltb, ◌==◌, if◌then◌else◌,
}
use baen_economy_engine.Decimal.Number.{Decimal}
use baen_economy_engine.Decimal.Context.{precision, etiny, digits}

-- The exponent at which a number with this coefficient and exponent is stored with full precision.
unfoldable pub full_exponent : ℕ → ℕ → ℕ
full_exponent c e = max (digits c + e - precision) etiny

-- The greatest stored number that is not above, with full precision.
unfoldable pub floor_full : ℕ → ℕ → ℕ × ℕ
floor_full c e =
    let full = full_exponent c e in
    if ltb e full then (c / 10 ^ (full - e), full) else (c * 10 ^ (e - full), full)

-- No digit is lost on the way to it.
unfoldable pub is_stored : ℕ → ℕ → Bool
is_stored c e =
    let full = full_exponent c e in if ltb e full then c % 10 ^ (full - e) == 0 else true

-- The neighbours of a number with full precision.
unfoldable pub below_full : ℕ × ℕ → ℕ × ℕ
below_full (c, e) =
    if c == 10 ^ (precision - 1) && ltb etiny e then (10 ^ precision - 1, e - 1) else (c - 1, e)

above_full : ℕ × ℕ → ℕ × ℕ
above_full (c, e) = if c == 10 ^ precision - 1 then (10 ^ (precision - 1), e + 1) else (c + 1, e)

abbrev pub signed : Bool → ℕ × ℕ → Decimal
signed negative (c, e) = record { negative = negative; coefficient = c; exponent = e }

-- `context.next_minus(d)`
unfoldable pub next_minus : Decimal → Decimal
unfolding above_full
next_minus d =
    let floor = floor_full d.coefficient d.exponent in
    if d.coefficient == 0
    then signed true (1, etiny)
    else if d.negative
    then signed true (above_full floor)
    else if is_stored d.coefficient d.exponent
    then signed false (below_full floor)
    else signed false floor
