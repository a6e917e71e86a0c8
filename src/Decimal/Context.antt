-- ===== src/Decimal/Context.antt =====
-- The arithmetic context that the engine builds for every calculation: 40 digits, half-even
-- rounding, exponents between -999999 and 999999, with the default traps (overflow, division by
-- zero and invalid operations raise).
pub mod Signs
use baen_economy_engine.Prelude.{
  ℕ, zero, suc, ◌+◌, ◌-◌, ◌*◌, ◌/◌, ◌%◌, ◌^◌, min, max, Bool, true, false, ◌&&◌, leb, ltb, ◌==◌,
  if◌then◌else◌, not, Result, ok, err,
}
use baen_economy_engine.Decimal.Number.{Decimal, bias, aligned}

pub data DecimalError : Type 0 where
  overflow division_by_zero : DecimalError

abbrev pub precision : ℕ
precision = 40

-- The least and the greatest exponent of a full coefficient, and of a zero.
abbrev pub etiny : ℕ
etiny = bias - 1000038

abbrev pub etop : ℕ
etop = bias + 999960

abbrev pub emax : ℕ
emax = bias + 999999

-- The number of decimal digits; `fuel` is at least that number.
unfoldable pub count_digits : ℕ → ℕ → ℕ
count_digits zero n = 1
count_digits (suc fuel) n = elim (ltb n 10) [ true ↦ 1 | false ↦ suc (count_digits fuel (n / 10)) ]

unfoldable pub digits : ℕ → ℕ
unfolding count_digits
digits n = count_digits n n

-- `c / 10 ^ k`, to the nearest, and to the even one of two as near.
unfoldable pub half_even : ℕ → ℕ → ℕ
half_even c k =
    let unit = 10 ^ k in
    let q = c / unit in
    let r = c % unit in
    if ltb unit (2 * r)
    then q + 1
    else if ltb (2 * r) unit
    then q
    else if q % 2 == 0
    then q
    else q + 1

-- A rounded coefficient that has run over to one digit more loses that digit.
settle : Bool → ℕ → ℕ → Result DecimalError Decimal
settle negative c e =
    let over = leb (10 ^ precision) c in
    let c' = if over then c / 10 else c in
    let e' = if over then e + 1 else e in
    if ltb etop e'
    then err overflow
    else ok (record { negative = negative; coefficient = c'; exponent = e' })

round_to : Bool → ℕ → ℕ → ℕ → Result DecimalError Decimal
unfolding half_even settle
round_to negative c e e_min =
    if ltb e e_min
    then settle negative (half_even c (e_min - e)) e_min
    else ok (record { negative = negative; coefficient = c; exponent = e })

fix_nonzero : Bool → ℕ → ℕ → Result DecimalError Decimal
unfolding digits round_to
fix_nonzero negative c e =
    let e_min = digits c + e - precision in
    if ltb etop e_min then err overflow else round_to negative c e (max e_min etiny)

-- The number with this sign, coefficient and exponent, as the context stores it.
unfoldable pub fix : Bool → ℕ → ℕ → Result DecimalError Decimal
unfolding fix_nonzero
fix negative c e =
    if c == 0
    then ok (record { negative = negative; coefficient = 0; exponent = min (max e etiny) emax })
    else fix_nonzero negative c e

abbrev xor : Bool → Bool → Bool
xor true b = not b
xor false b = b

abbrev same_sign : Bool → Bool → Bool
same_sign a b = not (xor a b)

unfoldable pub add : Decimal → Decimal → Result DecimalError Decimal
add a b =
    let e = min a.exponent b.exponent in
    let x = aligned a b in
    let y = aligned b a in
    if same_sign a.negative b.negative
    then fix a.negative (x + y) e
    else if x == y
    then fix false 0 e
    else if ltb y x
    then fix a.negative (x - y) e
    else fix b.negative (y - x) e

abbrev pub copy_negate : Decimal → Decimal
copy_negate a = record a { negative = not a.negative }

unfoldable pub sub : Decimal → Decimal → Result DecimalError Decimal
unfolding add
sub a b = add a (copy_negate b)

-- The unary minus, which rounds like any operation; zero comes back without a sign.
unfoldable pub negate : Decimal → Result DecimalError Decimal
negate a =
    if a.coefficient == 0
    then fix false 0 a.exponent
    else fix (not a.negative) a.coefficient a.exponent

unfoldable pub mul : Decimal → Decimal → Result DecimalError Decimal
mul a b =
    fix (xor a.negative b.negative) (a.coefficient * b.coefficient) (a.exponent + b.exponent - bias)

-- An exact quotient loses trailing zeros down to the exponent `ideal`; `fuel` bounds their count.
strip_zeros : ℕ → ℕ → ℕ → ℕ → ℕ × ℕ
strip_zeros zero c e ideal = (c, e)
strip_zeros (suc fuel) c e ideal = elim (ltb e ideal && c % 10 == 0) [
  | true ↦ strip_zeros fuel (c / 10) (e + 1) ideal
  | false ↦ (c, e)
]

divide_nonzero : Decimal → Decimal → Result DecimalError Decimal
unfolding strip_zeros digits
divide_nonzero a b =
    let up = digits b.coefficient + 41 - digits a.coefficient in
    let down = digits a.coefficient - (digits b.coefficient + 41) in
    let e = a.exponent + bias + down - (b.exponent + up) in
    let n = a.coefficient * 10 ^ up in
    let d = b.coefficient * 10 ^ down in
    let q = n / d in
    let negative = xor a.negative b.negative in
    let (c', e') = strip_zeros q q e (a.exponent + bias - b.exponent) in
    if n % d == 0 then fix negative c' e' else fix negative (if q % 5 == 0 then q + 1 else q) e

-- The true division `a / b`.
unfoldable pub divide : Decimal → Decimal → Result DecimalError Decimal
unfolding divide_nonzero
divide a b =
    if b.coefficient == 0
    then err division_by_zero
    else if a.coefficient == 0
    then fix (xor a.negative b.negative) 0 (a.exponent + bias - b.exponent)
    else divide_nonzero a b
