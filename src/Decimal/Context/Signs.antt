-- ===== src/Decimal/Context/Signs.antt =====
-- The signs of results: no operation that the engine uses on numbers from zero up falls below zero.
use native.Mathlib.Nat.{zero-mul}
use baen_economy_engine.Prelude.{
  ℕ, ◌+◌, ◌≤◌, ◌^◌, ◌-◌, ◌≡◌, inl, inr, refl, sym, arith, Bool, true, false, ok, Bool-cases, leb→le,
  max, min, not, ok-inj, ◌∙◌,
}
use baen_economy_engine.Decimal.Number.{
  Decimal, zero_dec, aligned, le_dec, is_negative, is_zero, bias,
}
use baen_economy_engine.Decimal.Context.{
  precision, etiny, emax, digits, fix, fix_nonzero, round_to, settle, add, sub, mul, divide,
  divide_nonzero, xor, same_sign,
}
use baen_economy_engine.Decimal.Order.{Le, nonneg_iff, mul_le_iff, pow_pos, le_trans}

round_to-negative :
    (negative : Bool) (c e e_min : ℕ) (d : Decimal)
    → round_to negative c e e_min ≡ ok d
    → d.negative ≡ negative
unfolding round_to settle
round_to-negative negative c e e_min d h = ground arith

pub fix-negative :
    (negative : Bool) (c e : ℕ) (d : Decimal) → fix negative c e ≡ ok d → d.negative ≡ negative
unfolding fix fix_nonzero
fix-negative negative c e d h =
    ground (arith, round_to-negative negative c e (max (digits c + e - precision) etiny) d)

-- Rounding leaves a zero as it is.
pub fix-zero :
    (negative : Bool) (e : ℕ) → (d : Decimal) × (fix negative 0 e ≡ ok d) × (d.coefficient ≡ 0)
unfolding fix
fix-zero negative e =
    (record { negative = negative; coefficient = 0; exponent = min (max e etiny) emax }, refl, refl)

-- The difference from a number that is no greater is not below zero.
pub sub-negative :
    (a b d : Decimal)
    → a.negative ≡ false
    → is_negative b ≡ false
    → Le b a
    → sub a b ≡ ok d
    → d.negative ≡ false
unfolding sub add is_negative le_dec
sub-negative a b d pos nonneg le h = ground (
  arith,
  leb→le (aligned b a) (aligned a b),
  fix-negative false (aligned a b + aligned b a) (min a.exponent b.exponent) d,
  fix-negative false 0 (min a.exponent b.exponent) d,
  fix-negative false (aligned a b - aligned b a) (min a.exponent b.exponent) d,
)

pub divide-negative :
    (a b d : Decimal)
    → a.negative ≡ false
    → b.negative ≡ false
    → divide a b ≡ ok d
    → d.negative ≡ false
unfolding divide divide_nonzero
divide-negative a b d ha hb h = grind (arith, fix-negative)

pub mul-zero_lem :
    (a b : Decimal) → a.coefficient ≡ 0 → (d : Decimal) × (mul a b ≡ ok d) × (d.coefficient ≡ 0)
unfolding mul
mul-zero_lem a b h =
    rw (h, zero-mul) (fix-zero (xor a.negative b.negative) (a.exponent + b.exponent - bias))

pub sub-zero_lem :
    (a b : Decimal)
    → a.coefficient ≡ 0
    → b.coefficient ≡ 0
    → (d : Decimal) × (sub a b ≡ ok d) × (d.coefficient ≡ 0)
unfolding sub add
sub-zero_lem a b ha hb =
    rw
      (ha, hb, zero-mul (10 ^ (a.exponent - b.exponent)), zero-mul (10 ^ (b.exponent - a.exponent)))
      (elim (Bool-cases (same_sign a.negative (not b.negative))) [
        | inl e ↦ rw e (fix-zero a.negative (min a.exponent b.exponent))
        | inr e ↦ rw e (fix-zero false (min a.exponent b.exponent))
      ])

-- A number from zero up that is not zero has no sign.
pub positive_sign : (d : Decimal) → Le zero_dec d → is_zero d ≡ false → d.negative ≡ false
unfolding is_zero is_negative
positive_sign d nonneg nonzero = ground (arith, (nonneg_iff d).1 nonneg)

above-positive : (b a : Decimal) → Le zero_dec b → is_zero b ≡ false → Le b a → a.negative ≡ false
unfolding le_dec is_zero
above-positive b a nonneg nonzero le =
    let some_digits : 1 ≤ b.coefficient = ground arith in
    let large =
      (mul_le_iff 1 b.coefficient (10 ^ (b.exponent - a.exponent))
          (pow_pos (b.exponent - a.exponent))).0
        some_digits in
    ground (arith, positive_sign b nonneg nonzero, large, pow_pos (b.exponent - a.exponent))

aligned-zero : (a b : Decimal) → a.coefficient ≡ 0 → aligned a b ≡ 0
unfolding aligned
aligned-zero a b h = rw (h, zero-mul (10 ^ (a.exponent - b.exponent))) refl

fix-coefficient :
    (negative : Bool) (e : ℕ) (d : Decimal) → fix negative 0 e ≡ ok d → d.coefficient ≡ 0
unfolding fix
fix-coefficient negative e d h = ground (arith, h)

-- A sum of numbers from zero up is from zero up.
pub add-nonneg : (a b d : Decimal) → Le zero_dec a → Le zero_dec b → add a b ≡ ok d → Le zero_dec d
unfolding add is_negative
add-nonneg a b d ha hb h =
    let x = aligned a b in
    let y = aligned b a in
    let e = min a.exponent b.exponent in
    (nonneg_iff d).0 (
      ground (
        arith,
        (nonneg_iff a).1 ha,
        (nonneg_iff b).1 hb,
        aligned-zero a b,
        aligned-zero b a,
        fix-negative false (x + y) e d,
        fix-negative false 0 e d,
        fix-negative false (x - y) e d,
        fix-negative false (y - x) e d,
        fix-coefficient true e d,
      ))

-- What is taken from a number that is no less leaves a number from zero up.
pub sub-nonneg : (a b d : Decimal) → Le zero_dec b → Le b a → sub a b ≡ ok d → Le zero_dec d
unfolding is_negative is_zero
sub-nonneg a b d nonneg le h = elim (Bool-cases (is_zero b)) [
  | inr nonzero ↦
      let sign =
        sub-negative a b d (above-positive b a nonneg nonzero le) ((nonneg_iff b).1 nonneg) le h in
      (nonneg_iff d).0 (ground (arith, sign))
  | inl zero_b ↦ elim (Bool-cases a.negative) [
    | inr pos ↦
        (nonneg_iff d).0 (ground (arith, sub-negative a b d pos ((nonneg_iff b).1 nonneg) le h))
    | inl neg ↦
        let low = (nonneg_iff a).1 (le_trans zero_dec b a nonneg le) in
        let (d', e, z) = sub-zero_lem a b (ground arith) (ground arith) in
        let same : d' ≡ d = ok-inj (sym e ∙ h) in (nonneg_iff d).0 (ground (arith, same))
  ]
]

-- What is between zero and a zero is zero.
pub zero-above : (a b : Decimal) → Le zero_dec a → Le a b → is_zero b ≡ true → is_zero a ≡ true
unfolding is_zero le_dec
zero-above a b nonneg le h = elim (Bool-cases (is_zero a)) [
  | inl zero_a ↦ ground (arith, zero_a)
  | inr some_a ↦
      let some_digits : 1 ≤ a.coefficient = ground arith in
      let large =
        (mul_le_iff 1 a.coefficient (10 ^ (a.exponent - b.exponent))
            (pow_pos (a.exponent - b.exponent))).0
          some_digits in
      ground (
        arith,
        positive_sign a nonneg some_a,
        above-positive a b nonneg some_a le,
        large,
        pow_pos (a.exponent - b.exponent),
        aligned-zero b a,
      )
]

pub sub-zero :
    (a b d : Decimal) → is_zero a ≡ true → is_zero b ≡ true → sub a b ≡ ok d → is_zero d ≡ true
unfolding is_zero
sub-zero a b d ha hb h =
    let (d', e, z) = sub-zero_lem a b (ground arith) (ground arith) in
    let same : d' ≡ d = ok-inj (sym e ∙ h) in ground (arith, same)

pub sub_self : (a d : Decimal) → sub a a ≡ ok d → is_zero d ≡ true
unfolding sub add is_zero
sub_self a d h = ground (arith, fix-coefficient false (min a.exponent a.exponent) d)
