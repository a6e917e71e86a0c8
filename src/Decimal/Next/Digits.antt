-- ===== src/Decimal/Next/Digits.antt =====
-- The count of the decimal digits of a number, by powers of ten.
use native.Mathlib.Nat.{pow-suc, pow-le-pow_right}
use baen_economy_engine.Prelude.{ℕ, zero, suc, ◌/◌, ◌^◌, ◌≤◌, ◌<◌, ◌≡◌, arith, dec_lt}
use baen_economy_engine.Decimal.Context.{count_digits, digits}
use baen_economy_engine.Decimal.Order.{pow_pos}

-- A number below a power of ten has no more digits than its exponent says.
count_digits-le : (fuel n k : ℕ) → n < 10 ^ suc k → count_digits fuel n ≤ suc k
unfolding count_digits
count_digits-le zero n k h = omega arith
count_digits-le (suc fuel) n zero h = ground arith
count_digits-le (suc fuel) n (suc k) h =
    let smaller : n / 10 < 10 ^ suc k = omega (arith, pow-suc 10 (suc k)) in
    ground (arith, count_digits-le fuel (n / 10) k smaller)

-- A number from a power of ten on has more.
count_digits-lt : (fuel n k : ℕ) → n ≤ fuel → 10 ^ k ≤ n → k < count_digits fuel n
unfolding count_digits
count_digits-lt zero n k h l = omega (arith, pow_pos k)
count_digits-lt (suc fuel) n zero h l = ground arith
count_digits-lt (suc fuel) n (suc k) h l =
    let large : 10 ^ k ≤ n / 10 = omega (arith, pow-suc 10 k) in
    let more : 10 ≤ n = omega (arith, pow-suc 10 k, pow_pos k) in
    ground (arith, count_digits-lt fuel (n / 10) k (omega arith) large)

pub digits-le : (n k : ℕ) → n < 10 ^ suc k → digits n ≤ suc k
unfolding digits
digits-le n k h = count_digits-le n n k h

pub digits-lt : (n k : ℕ) → 10 ^ k ≤ n → k < digits n
unfolding digits
digits-lt n k h = count_digits-lt n n k (omega arith) h

pub digits_pos : (n : ℕ) → 1 ≤ digits n
unfolding digits count_digits
digits_pos zero = omega arith
digits_pos (suc n) = omega (arith, digits-lt (suc n) 0 (omega arith))

-- A number lies below the power of ten with as many digits, and is at least the one before.
pub lt-digits : (n : ℕ) → n < 10 ^ digits n
lt-digits n = elim (dec_lt n (10 ^ digits n)) [
  | yes h ↦ h
  | no h ↦ absurd (omega (arith, digits-lt n (digits n) (omega arith)))
]

pub le-digits : (n k : ℕ) → 1 ≤ n → digits n ≡ suc k → 10 ^ k ≤ n
le-digits n zero h e = omega arith
le-digits n (suc k) h e = elim (dec_lt n (10 ^ suc k)) [
  | yes l ↦ absurd (omega (arith, digits-le n k l))
  | no l ↦ omega arith
]

pub pow_mono : (a b : ℕ) → a ≤ b → 10 ^ a ≤ 10 ^ b
pow_mono a b h = pow-le-pow_right (omega arith) h
