-- ===== src/Decimal/Examples.antt =====
-- Runs of the decimal arithmetic on numbers that are easy to follow.
use baen_economy_engine.Prelude.{◌≡◌, refl, true, false, ok, err, ◌+◌, ◌-◌, ◌^◌}
use baen_economy_engine.Decimal.Number.{whole, fraction, bias}
use baen_economy_engine.Decimal.Context.{add, sub, mul, divide, fix, digits, division_by_zero}

-- 1.25 + 0.5, 0.5 - 1.25, 1.25 * 4, 1 / 8, 1 / 3.
sum_run : add (fraction 125 2) (fraction 5 1) ≡ ok (fraction 175 2)
unfolding add fix digits
sum_run = refl

difference_run :
    sub (fraction 5 1) (fraction 125 2)
    ≡ ok (record { negative = true; coefficient = 75; exponent = bias - 2 })
unfolding sub fix digits
difference_run = refl

product_run : mul (fraction 125 2) (whole 4) ≡ ok (fraction 500 2)
unfolding mul fix digits
product_run = refl

eighth_run : divide (whole 1) (whole 8) ≡ ok (fraction 125 3)
unfolding divide fix digits
eighth_run = refl

third_run : divide (whole 1) (whole 3) ≡ ok (fraction 3333333333333333333333333333333333333333 40)
unfolding divide fix digits
third_run = refl

-- A 41-digit sum is rounded to the even neighbour.
tie_run :
    add (whole (10 ^ 40)) (whole 5)
    ≡ ok (record { negative = false; coefficient = 10 ^ 39; exponent = bias + 1 })
unfolding add fix digits
tie_run = refl

zero_run : divide (whole 1) (whole 0) ≡ err division_by_zero
unfolding divide
zero_run = refl
