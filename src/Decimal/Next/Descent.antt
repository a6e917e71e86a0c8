-- ===== src/Decimal/Next/Descent.antt =====
-- `next_minus` goes down: the numbers that the context can store have a rank, and each step lowers it.
use native.Mathlib.Nat.{
  mul_assoc, pow-suc, div-mul-le_self, mul-le-mul, mod-eq_of_lt, mul-lt-mul_of_pos_right,
  mul-le-mul_right, le-div_iff_mul-le, div-lt_iff_lt-mul,
}
use baen_economy_engine.Prelude.{
  ℕ, zero, suc, ◌+◌, ◌-◌, ◌*◌, ◌/◌, ◌%◌, ◌^◌, ◌≤◌, ◌<◌, ◌≡◌, ◌⊎◌, inl, inr, refl, sym, ap, ◌∙◌,
  subst, arith, true, false, ◌&&◌, ltb, ◌==◌, if◌then◌else◌, Bool-cases, dec_lt, ==_iff,
}
use baen_economy_engine.Decimal.Number.{Decimal, le_dec}
use baen_economy_engine.Decimal.Order.{Le, pow_pos, pow-add}
use baen_economy_engine.Decimal.Context.{precision, etiny, digits}
use baen_economy_engine.Decimal.Next.{
  full_exponent, floor_full, is_stored, below_full, signed, next_minus,
}
use baen_economy_engine.Decimal.Next.Digits.{
  digits-le, digits-lt, digits_pos, lt-digits, le-digits, pow_mono,
}

-- A coefficient and an exponent with full precision: 40 digits, or the least exponent.
abbrev pub IsFull : ℕ → ℕ → Type 0
IsFull c e = (c < 10 ^ precision) × (etiny ≤ e) × ((10 ^ (precision - 1) ≤ c) ⊎ (e ≡ etiny))

full_exponent-IsFull : (c e : ℕ) → IsFull c e → full_exponent c e ≡ e
unfolding full_exponent
full_exponent-IsFull c e (small, low, inl large) =
    omega (arith, digits-le c 39 (omega arith), digits-lt c 39 (omega arith))
full_exponent-IsFull c e (small, low, inr least) = omega (arith, digits-le c 39 (omega arith))

quotient-IsFull : (c e k : ℕ) → 1 ≤ c → full_exponent c e ≡ e + k → IsFull (c / 10 ^ k) (e + k)
unfolding full_exponent
quotient-IsFull c e k h f =
    let n : ℕ = digits c in
    let bound : 10 ^ n ≤ 10 ^ (40 + k) = pow_mono n (40 + k) (omega arith) in
    let small : c < 10 ^ 40 * 10 ^ k = omega (arith, lt-digits c, bound, pow-add 40 k) in
    let large : 40 + k ≤ n → 10 ^ 39 ≤ c / 10 ^ k = λ l.
      (le-div_iff_mul-le (pow_pos k)).1
        (omega (arith, le-digits c (39 + k) h (omega arith), pow-add 39 k)) in
    (
      (div-lt_iff_lt-mul (pow_pos k)).1 small,
      omega arith,
      elim (dec_lt n (40 + k)) [ yes l ↦ inr (omega arith) | no l ↦ inl (large (omega arith)) ],
    )

product-IsFull : (c e k : ℕ) → 1 ≤ c → full_exponent c (e + k) ≡ e → IsFull (c * 10 ^ k) e
unfolding full_exponent
product-IsFull c e k h f =
    let n : ℕ = digits c in
    let bound : 10 ^ (n + k) ≤ 10 ^ 40 = pow_mono (n + k) 40 (omega arith) in
    let scaled : c * 10 ^ k < 10 ^ n * 10 ^ k = mul-lt-mul_of_pos_right (lt-digits c) (pow_pos k) in
    let large : n + k ≡ 40 → 10 ^ 39 ≤ c * 10 ^ k = λ l.
      let low : 10 ^ (39 - k) ≤ c = le-digits c (39 - k) h (omega (arith, digits_pos c)) in
      let sum : ◌≡◌ {A = ℕ} 39 (39 - k + k) = omega (arith, digits_pos c) in
      let whole : 10 ^ 39 ≡ 10 ^ (39 - k) * 10 ^ k =
        ap (λ (t : ℕ). 10 ^ t) sum ∙ pow-add (39 - k) k in
      omega (arith, whole, mul-le-mul_right (10 ^ k) low) in
    (
      omega (arith, pow-add n k),
      omega arith,
      elim (dec_lt (n + k) 40) [ yes l ↦ inr (omega arith) | no l ↦ inl (large (omega arith)) ],
    )

floor_full_cases :
    (c e : ℕ)
    → ((k : ℕ) × (full_exponent c e ≡ e + k) × (floor_full c e ≡ (c / 10 ^ k, e + k)))
      ⊎ ((k : ℕ) × (e ≡ full_exponent c e + k) × (floor_full c e ≡ (c * 10 ^ k, full_exponent c e)))
unfolding floor_full
floor_full_cases c e =
    let full : ℕ = full_exponent c e in
    elim (dec_lt e full) [
      | yes l ↦ inl (full - e, omega arith, ground arith)
      | no l ↦ inr (e - full, omega arith, ground arith)
    ]

-- A number with full precision is its own floor.
floor_full-IsFull : (c e : ℕ) → IsFull c e → (floor_full c e ≡ (c, e)) × (is_stored c e ≡ true)
unfolding floor_full is_stored
floor_full-IsFull c e f =
    let same = full_exponent-IsFull c e f in (ground (arith, same), ground (arith, same))

-- The value of the first number is at most that of the second.
abbrev pub LeValue : ℕ × ℕ → ℕ × ℕ → Type 0
LeValue (c, e) (d, f) =
    ((k : ℕ) × (e ≡ f + k) × (c * 10 ^ k ≤ d)) ⊎ ((k : ℕ) × (f ≡ e + k) × (c ≤ d * 10 ^ k))

abbrev IsFloor : ℕ → ℕ → ℕ × ℕ → Type 0
IsFloor c e (d, f) = IsFull d f × LeValue (d, f) (c, e)

floor_full-IsFloor : (c e : ℕ) → 1 ≤ c → IsFloor c e (floor_full c e)
floor_full-IsFloor c e h = elim (floor_full_cases c e) [
  | inl (k, full, floor) ↦
      subst (IsFloor c e) (sym floor)
        (quotient-IsFull c e k h full, inl (k, refl, div-mul-le_self c (10 ^ k)))
  | inr (k, full, floor) ↦
      let same : full_exponent c (full_exponent c e + k) ≡ full_exponent c e =
        ap (full_exponent c) (sym full) in
      subst (IsFloor c e) (sym floor)
        (product-IsFull c (full_exponent c e) k h same, inr (k, full, omega arith))
]

below_full_cases :
    (c e : ℕ)
    → ((c ≡ 10 ^ 39) × (etiny < e) × (below_full (c, e) ≡ (10 ^ 40 - 1, e - 1)))
      ⊎ (below_full (c, e) ≡ (c - 1, e))
unfolding below_full
below_full_cases c e = elim (Bool-cases (c == 10 ^ 39 && ltb etiny e)) [
  | inl b ↦ inl (ground (arith, b), ground (arith, b), rw b)
  | inr b ↦ inr (rw b)
]

-- What lies below has a lower value.
LeValue-below :
    (e d f : ℕ) → 1 ≤ e → LeValue (10 ^ 39, e) (d, f) → LeValue (10 ^ 40 - 1, e - 1) (d, f)
LeValue-below e d f h (inl (zero, p, l)) = inr (1, omega arith, omega arith)
LeValue-below e d f h (inl (suc k, p, l)) = inl (
  k,
  omega arith,
  omega (
    arith,
    pow-suc 10 k,
    mul-le-mul_right {m = 10 ^ 40 - 1} {n = 10 ^ 40} (10 ^ k) (omega arith),
  ),
)
LeValue-below e d f h (inr (k, p, l)) =
    let step : d * 10 ^ suc k ≡ d * 10 ^ k * 10 =
      ap (λ (t : ℕ). d * t) (pow-suc 10 k) ∙ sym (mul_assoc d (10 ^ k) 10) in
    inr (suc k, omega arith, omega (arith, step))

LeValue-pred : (c e d f : ℕ) → LeValue (c, e) (d, f) → LeValue (c - 1, e) (d, f)
LeValue-pred c e d f (inl (k, p, l)) =
    inl (k, p, omega (arith, mul-le-mul_right {m = c - 1} {n = c} (10 ^ k) (omega arith)))
LeValue-pred c e d f (inr (k, p, l)) = inr (k, p, omega arith)

below_full-LeValue :
    (c e d f : ℕ) → 1 ≤ c → LeValue (c, e) (d, f) → LeValue (below_full (c, e)) (d, f)
below_full-LeValue c e d f h l = elim (below_full_cases c e) [
  | inl (top, high, below) ↦
      subst (λ x. LeValue x (d, f)) (sym below)
        (LeValue-below e d f (omega arith) (subst (λ x. LeValue (x, e) (d, f)) top l))
  | inr below ↦ subst (λ x. LeValue x (d, f)) (sym below) (LeValue-pred c e d f l)
]

below_full-IsFull :
    (c e : ℕ) → 1 ≤ c → IsFull c e → IsFull (below_full (c, e)).0 (below_full (c, e)).1
unfolding below_full
below_full-IsFull c e h f = ground arith

abbrev rank_full : ℕ × ℕ → ℕ
rank_full (c, e) = e * 10 ^ precision + c

below_full-lt : (c e : ℕ) → 1 ≤ c → IsFull c e → rank_full (below_full (c, e)) < rank_full (c, e)
unfolding below_full
below_full-lt c e h f = ground arith

-- The place of a number among those that the context can store.
unfoldable pub rank : Decimal → ℕ
rank d =
    rank_full (floor_full d.coefficient d.exponent)
    + (if is_stored d.coefficient d.exponent then 0 else 1)

LeValue-Le : (c e d f : ℕ) → LeValue (c, e) (d, f) → Le (signed false (c, e)) (signed false (d, f))
unfolding le_dec
LeValue-Le c e d f (inl (k, p, l)) =
    let there : ◌≡◌ {A = ℕ} (e - f) k = omega arith in
    let back : ◌≡◌ {A = ℕ} (f - e) 0 = omega arith in rw (there, back) (ground arith)
LeValue-Le c e d f (inr (k, p, l)) =
    let there : ◌≡◌ {A = ℕ} (e - f) 0 = omega arith in
    let back : ◌≡◌ {A = ℕ} (f - e) k = omega arith in rw (there, back) (ground arith)

-- What is known of a number below.
abbrev pub IsBelow : Decimal → Decimal → Type 0
IsBelow d below = (below.negative ≡ false) × Le below d × (rank below < rank d)

rank_full-eq : (c e : ℕ) → IsFull c e → rank (signed false (c, e)) ≡ rank_full (c, e)
unfolding rank
rank_full-eq c e f = let (same, stored) = floor_full-IsFull c e f in rw (same, stored) (omega arith)

quotient_pos : (c m : ℕ) → 1 ≤ c → 1 ≤ m → (c % m == 0) ≡ true → 1 ≤ c / m
quotient_pos c m h pos whole = elim (dec_lt c m) [
  | yes l ↦ absurd (omega (arith, mod-eq_of_lt l, (==_iff (c % m) 0).0 whole))
  | no l ↦ (le-div_iff_mul-le pos).1 (omega arith)
]

floor_full_pos : (c e : ℕ) → 1 ≤ c → is_stored c e ≡ true → 1 ≤ (floor_full c e).0
unfolding floor_full is_stored
floor_full_pos c e h stored =
    let full : ℕ = full_exponent c e in
    elim (Bool-cases (ltb e full)) [
      | inl l ↦ rw l (quotient_pos c (10 ^ (full - e)) h (pow_pos _) (rw l at stored))
      | inr l ↦ rw l (omega (arith, mul-le-mul h (pow_pos (e - full))))
    ]

module _ (c e : ℕ) (h : 1 ≤ c) where
  floor-IsBelow :
      is_stored c e ≡ false → IsBelow (signed false (c, e)) (signed false (floor_full c e))
  unfolding rank
  floor-IsBelow lost =
      let (full, value) = floor_full-IsFloor c e h in
      (
        refl,
        LeValue-Le (floor_full c e).0 (floor_full c e).1 c e value,
        rw (rank_full-eq (floor_full c e).0 (floor_full c e).1 full, lost) (omega arith),
      )

  step-IsBelow :
      is_stored c e ≡ true
      → 1 ≤ (floor_full c e).0
      → IsBelow (signed false (c, e)) (signed false (below_full (floor_full c e)))
  unfolding rank
  step-IsBelow stored pos =
      let (d, f) = floor_full c e in
      let (full, value) = floor_full-IsFloor c e h in
      (
        refl,
        LeValue-Le (below_full (d, f)).0 (below_full (d, f)).1 c e
            (below_full-LeValue d f c e pos value),
        rw
            (
              rank_full-eq (below_full (d, f)).0 (below_full (d, f)).1
                  (below_full-IsFull d f pos full),
              stored,
            )
            (omega (arith, below_full-lt d f pos full)),
      )

next-IsBelow : (c e : ℕ) → 1 ≤ c → IsBelow (signed false (c, e)) (next_minus (signed false (c, e)))
unfolding next_minus
next-IsBelow c e h =
    let nonzero : (c == 0) ≡ false = ground arith in
    elim (Bool-cases (is_stored c e)) [
      | inl stored ↦ rw (nonzero, stored) (step-IsBelow c e h stored (floor_full_pos c e h stored))
      | inr lost ↦ rw (nonzero, lost) (floor-IsBelow c e h lost)
    ]

-- From a number above zero the next one down is not below zero, not above it, and of lower rank.
pub next_minus-IsBelow :
    (d : Decimal) → d.negative ≡ false → 1 ≤ d.coefficient → IsBelow d (next_minus d)
next_minus-IsBelow d pos h =
    let same : signed false (d.coefficient, d.exponent) ≡ d = ground (arith, pos) in
    subst (λ x. IsBelow x (next_minus x)) same (next-IsBelow d.coefficient d.exponent h)
