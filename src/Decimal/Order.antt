-- ===== src/Decimal/Order.antt =====
-- The exact order of decimals is a total preorder, and `min` and `max` are its bounds.
use native.Mathlib.Nat.{mul_assoc, pow-suc, add-zero, add-suc, le_of_mul-le-mul_right}
use baen_economy_engine.Prelude.{
  ℕ, zero, suc, ◌+◌, ◌-◌, ◌*◌, ◌^◌, ◌≤◌, ◌≡◌, ◌↔◌, ◌⊎◌, inl, inr, refl, true, false, arith, min, ap,
  ◌∙◌, sym, Bool, leb→le, le→leb, Bool-cases, if◌then◌else◌, if◌then◌else◌, ltb,
}
use baen_economy_engine.Decimal.Number.{
  Decimal, aligned, above, below, le_dec, lt_dec, is_negative, min_dec, max_dec, zero_dec, bias,
}

pub pow-add : (a b : ℕ) → 10 ^ (a + b) ≡ 10 ^ a * 10 ^ b
pow-add a zero = rw add-zero (omega arith)
pow-add a (suc b) =
    rw (add-suc, pow-suc, pow-suc) (ap (λ (t : ℕ). t * 10) (pow-add a b) ∙ mul_assoc _ _ _)

pub pow_pos : (n : ℕ) → 1 ≤ 10 ^ n
pow_pos zero = omega arith
pow_pos (suc n) = rw pow-suc (omega (arith, pow_pos n))

-- The coefficient of `a` at the exponent `m`.
abbrev pub scaled : Decimal → ℕ → ℕ
scaled a m = a.coefficient * 10 ^ (a.exponent - m)

scaled-aligned :
    (a b : Decimal) (m : ℕ)
    → m ≤ a.exponent
    → m ≤ b.exponent
    → scaled a m ≡ aligned a b * 10 ^ (min a.exponent b.exponent - m)
scaled-aligned a b m ha hb =
    let split : a.exponent - m ≡ (a.exponent - b.exponent) + (min a.exponent b.exponent - m) =
      omega arith in
    ap (λ k. a.coefficient * 10 ^ k) split
    ∙ ap (λ k. a.coefficient * k) (pow-add _ _)
    ∙ sym (mul_assoc _ _ _)

-- `a ≤ b` read at one exponent below both.
abbrev pub LeAt : ℕ → Decimal → Decimal → Type 0
LeAt m a b =
    above a.negative (scaled a m) + below b.negative (scaled b m)
    ≤ above b.negative (scaled b m) + below a.negative (scaled a m)

cancel : {x y : ℕ} (k : ℕ) → 1 ≤ k → x * k ≤ y * k → x ≤ y
cancel {x} {y} k h l = le_of_mul-le-mul_right {k = k} l h

pub mul_le_iff : (x y k : ℕ) → 1 ≤ k → (x ≤ y) ↔ (x * k ≤ y * k)
mul_le_iff x y k h = (λ l. grind arith, λ l. cancel k h l)

-- `a ≤ b` for numbers given by sign and size.
abbrev LeSign : Bool → Bool → ℕ → ℕ → Type 0
LeSign na nb x y = above na x + below nb y ≤ above nb y + below na x

scale-sign : (na nb : Bool) (x y k : ℕ) → 1 ≤ k → LeSign na nb x y ↔ LeSign na nb (x * k) (y * k)
scale-sign false false x y k h = (
  λ l. omega (arith, (mul_le_iff x y k h).0 (omega arith)),
  λ l. omega (arith, (mul_le_iff x y k h).1 (omega arith)),
)
scale-sign true true x y k h = (
  λ l. omega (arith, (mul_le_iff y x k h).0 (omega arith)),
  λ l. omega (arith, (mul_le_iff y x k h).1 (omega arith)),
)
scale-sign true false x y k h = (λ l. omega arith, λ l. omega arith)
scale-sign false true x y k h = (
  λ l. omega (arith, (mul_le_iff (x + y) 0 k h).0 (omega arith)),
  λ l. omega (arith, (mul_le_iff (x + y) 0 k h).1 (omega arith)),
)

module _ (a b : Decimal) (m : ℕ) (ha : m ≤ a.exponent) (hb : m ≤ b.exponent) where
  abbrev LeAligned : Type 0
  LeAligned = LeSign a.negative b.negative (aligned a b) (aligned b a)

  aligned-LeAt : LeAligned ↔ LeAt m a b
  aligned-LeAt =
      let k : ℕ = 10 ^ (min a.exponent b.exponent - m) in
      let eb : scaled b m ≡ aligned b a * k =
        scaled-aligned b a m hb ha ∙ ap (λ (t : ℕ). aligned b a * 10 ^ (t - m)) (omega arith) in
      rw (scaled-aligned a b m ha hb, eb)
        (scale-sign a.negative b.negative (aligned a b) (aligned b a) k (pow_pos _))

  pub le_dec-LeAt : (le_dec a b ≡ true) ↔ LeAt m a b
  unfolding le_dec
  le_dec-LeAt = (λ h. aligned-LeAt.0 (leb→le _ _ h), λ h. le→leb _ _ (aligned-LeAt.1 h))

abbrev pub Le : Decimal → Decimal → Type 0
Le a b = le_dec a b ≡ true

pub le_refl : (a : Decimal) → Le a a
le_refl a = (le_dec-LeAt a a a.exponent (omega arith) (omega arith)).1 (omega arith)

pub le_trans : (a b c : Decimal) → Le a b → Le b c → Le a c
le_trans a b c h k =
    let m : ℕ = min a.exponent (min b.exponent c.exponent) in
    let la = (le_dec-LeAt a b m (omega arith) (omega arith)).0 h in
    let lb = (le_dec-LeAt b c m (omega arith) (omega arith)).0 k in
    (le_dec-LeAt a c m (omega arith) (omega arith)).1 (omega arith)

pub le-total : (a b : Decimal) → Le a b ⊎ Le b a
unfolding le_dec
le-total a b = ground arith

-- `a < b` is the failure of `b ≤ a`, and gives `a ≤ b`.
pub lt-le : (a b : Decimal) → lt_dec a b ≡ true → Le a b
unfolding lt_dec
lt-le a b h = ground (arith, le-total a b)

pub not_lt-le : (a b : Decimal) → lt_dec a b ≡ false → Le b a
unfolding lt_dec
not_lt-le a b h = ground arith

module _ (a b : Decimal) where
  pub min-le_left : Le (min_dec a b) a
  unfolding min_dec
  min-le_left = elim (Bool-cases (lt_dec b a)) [
    | inl h ↦ rw h (lt-le b a h)
    | inr h ↦ rw h (le_refl a)
  ]

  pub min-le_right : Le (min_dec a b) b
  unfolding min_dec
  min-le_right = elim (Bool-cases (lt_dec b a)) [
    | inl h ↦ rw h (le_refl b)
    | inr h ↦ rw h (not_lt-le b a h)
  ]

  pub le-max_left : Le a (max_dec a b)
  unfolding max_dec
  le-max_left = elim (Bool-cases (lt_dec a b)) [
    | inl h ↦ rw h (lt-le a b h)
    | inr h ↦ rw h (le_refl a)
  ]

  pub le-max_right : Le b (max_dec a b)
  unfolding max_dec
  le-max_right = elim (Bool-cases (lt_dec a b)) [
    | inl h ↦ rw h (le_refl b)
    | inr h ↦ rw h (not_lt-le a b h)
  ]

  -- `min` and `max` give one of their arguments.
  pub min-cases : (min_dec a b ≡ a) ⊎ (min_dec a b ≡ b)
  unfolding min_dec
  min-cases = elim (Bool-cases (lt_dec b a)) [ inl h ↦ inr (rw h) | inr h ↦ inl (rw h) ]

  pub max-cases : (max_dec a b ≡ a) ⊎ (max_dec a b ≡ b)
  unfolding max_dec
  max-cases = elim (Bool-cases (lt_dec a b)) [ inl h ↦ inr (rw h) | inr h ↦ inl (rw h) ]

pub le-min : (a b c : Decimal) → Le c a → Le c b → Le c (min_dec a b)
le-min a b c ha hb = elim (min-cases a b) [ inl e ↦ rw e ha | inr e ↦ rw e hb ]

pub max-le : (a b c : Decimal) → Le a c → Le b c → Le (max_dec a b) c
max-le a b c ha hb = elim (max-cases a b) [ inl e ↦ rw e ha | inr e ↦ rw e hb ]

nonneg_sign :
    (negative : Bool) (c k : ℕ)
    → 1 ≤ k
    → ((if negative then ltb 0 c else false) ≡ false) ↔ LeSign false negative 0 (c * k)
nonneg_sign false c k h = (λ e. omega arith, λ l. refl)
nonneg_sign true c k h = (
  λ e. omega (arith, (mul_le_iff c 0 k h).0 (ground arith)),
  λ l. ground (arith, (mul_le_iff c 0 k h).1 (omega arith)),
)

-- A number is not negative exactly when it is at least zero.
pub nonneg_iff : (a : Decimal) → (is_negative a ≡ false) ↔ Le zero_dec a
unfolding is_negative le_dec
nonneg_iff a =
    let sign = nonneg_sign a.negative a.coefficient (10 ^ (a.exponent - bias)) (pow_pos _) in
    (λ h. le→leb _ _ (omega (arith, sign.0 h)), λ h. sign.1 (omega (arith, leb→le _ _ h)))
