-- ===== src/Regional/Transport/Loop.antt =====
-- regional_transport.py: the loop of `dispatch_for_delivery` ends, and what it ends with.
use native.Mathlib.Nat.{zero-mul}
use baen_economy_engine.Prelude.{
  ℕ, zero, ◌^◌, ◌-◌, ◌≤◌, dec_lt, Result, suc, ◌<◌, ◌≡◌, ◌≢◌, inl, inr, refl, sym, ◌∙◌, subst,
  arith, Bool, true, false, ok, err, raise_if, >>=-eq-ok, ok-inj, Bool-cases, ◌>>=◌,
}
use baen_economy_engine.Decimal.Number.{Decimal, zero_dec, le_dec}
use baen_economy_engine.Decimal.Order.{Le, le_refl, le_trans}
use baen_economy_engine.Decimal.Context.{DecimalError, sub, mul}
use baen_economy_engine.Decimal.Context.Signs.{mul-zero_lem, sub-zero_lem}
use baen_economy_engine.Decimal.Next.{next_minus}
use baen_economy_engine.Decimal.Next.Descent.{rank, next_minus-IsBelow}
use baen_economy_engine.Regional.Types.{Regional, negative_amount, out_of_fuel, calculated}
use baen_economy_engine.Regional.Transport.{loss_and_delivery, step_down}

-- A dispatch of this quantity delivers no more than the desired one.
abbrev pub Delivers : Decimal → Decimal → Decimal → Type 0
Delivers rate desired d =
    (outcome : Decimal × Decimal) × (loss_and_delivery rate d ≡ ok outcome) × Le (outcome.1) desired

pub zero-Le : (a b : Decimal) → a.coefficient ≡ 0 → b.negative ≡ false → Le a b
unfolding le_dec
zero-Le a b ha hb = rw (ha, hb, zero-mul (10 ^ (a.exponent - b.exponent))) (ground arith)

pub zero-Delivers :
    (rate desired d : Decimal) → d.coefficient ≡ 0 → Le zero_dec desired → Delivers rate desired d
unfolding loss_and_delivery
zero-Delivers rate desired d none_sent nonneg =
    let (loss, e, z) = mul-zero_lem d rate none_sent in
    let (delivered, e', z') = sub-zero_lem d loss none_sent z in
    (
      (loss, delivered),
      rw (e, e') refl,
      le_trans delivered zero_dec desired (zero-Le delivered zero_dec z' refl) nonneg,
    )

-- What is delivered beyond the desired quantity is delivered from something.
overshoot-pos :
    (rate desired d : Decimal) (outcome : Decimal × Decimal)
    → desired.negative ≡ false
    → loss_and_delivery rate d ≡ ok outcome
    → le_dec (outcome.1) desired ≡ false
    → 1 ≤ d.coefficient
overshoot-pos rate desired d outcome pos e over = elim (dec_lt 0 d.coefficient) [
  | yes l ↦ omega arith
  | no l ↦
      let (other, e', le) =
        zero-Delivers rate desired d (omega arith) (zero-Le zero_dec desired refl pos) in
      let same : other ≡ outcome = ok-inj (sym e' ∙ e) in
      cc (subst (λ (o : Decimal × Decimal). Le (o.1) desired) same le, over)
]

pub calculated-ok {ℓ} :
    {A : Type ℓ} (r : Result DecimalError A) {a : A} → calculated r ≡ ok a → r ≡ ok a
calculated-ok (ok a) h = cc
calculated-ok (err e) h = cc

-- A run that does not spend its fuel.
abbrev pub Ends {ℓ} : {A : Type ℓ} → Regional A → Type ℓ
Ends r = r ≢ err out_of_fuel

pub raise_negative-Ends : (test : Bool) → Ends (raise_if test negative_amount)
raise_negative-Ends true h = cc
raise_negative-Ends false h = cc

pub calculated-Ends {ℓ} : {A : Type ℓ} (r : Result DecimalError A) → Ends (calculated r)
calculated-Ends (ok a) h = cc
calculated-Ends (err e) h = cc

pub bind-Ends {ℓ κ} :
    {A : Type ℓ} {B : Type κ} (m : Regional A) (f : A → Regional B)
    → Ends m
    → ((a : A) → m ≡ ok a → Ends (f a))
    → Ends (m >>= f)
bind-Ends (ok a) f h k l = k a refl l
bind-Ends (err e) f h k l = h (cc)

pub loss_and_delivery-Ends : (rate d : Decimal) → Ends (loss_and_delivery rate d)
unfolding loss_and_delivery
loss_and_delivery-Ends rate d =
    bind-Ends (calculated (mul d rate)) _ (calculated-Ends (mul d rate)) (λ loss _.
      bind-Ends (calculated (sub d loss)) _ (calculated-Ends (sub d loss)) (λ delivered _ h. cc))

-- What the loop returns, if it does.
abbrev pub IsStep : Decimal → Decimal → Decimal → Decimal → Type 0
IsStep rate desired first d = (d.negative ≡ false) × Le d first × Delivers rate desired d

module _ (rate desired : Decimal) (pos : desired.negative ≡ false) where
  pub step_down-IsStep :
      (fuel : ℕ) (first d : Decimal)
      → first.negative ≡ false
      → step_down fuel rate desired first ≡ ok d
      → IsStep rate desired first d
  unfolding step_down
  step_down-IsStep zero first d h r = cc
  step_down-IsStep (suc fuel) first d h r =
      let (outcome, e, r1) = >>=-eq-ok (loss_and_delivery rate first) _ r in
      elim (Bool-cases (le_dec (outcome.1) desired)) [
        | inl le ↦
            let same : first ≡ d = ok-inj (rw le at r1) in
            subst (IsStep rate desired first) same (h, le_refl first, (outcome, e, le))
        | inr over ↦
            let (positive, low, _) =
              next_minus-IsBelow first h (overshoot-pos rate desired first outcome pos e over) in
            let (sign, below, delivers) =
              step_down-IsStep fuel (next_minus first) d positive (rw over at r1) in
            (sign, le_trans d (next_minus first) first below low, delivers)
      ]

  -- Fuel beyond the place of the first number is enough.
  pub step_down-Ends :
      (fuel : ℕ) (first : Decimal)
      → first.negative ≡ false
      → rank first < fuel
      → step_down fuel rate desired first ≢ err out_of_fuel
  unfolding step_down
  step_down-Ends zero first h l = absurd (omega arith)
  step_down-Ends (suc fuel) first h l =
      bind-Ends (loss_and_delivery rate first) _ (loss_and_delivery-Ends rate first) (λ outcome e.
        elim (Bool-cases (le_dec (outcome.1) desired)) [
          | inl le ↦ rw le (λ r. cc)
          | inr over ↦
              let (positive, _, lower) =
                next_minus-IsBelow first h (overshoot-pos rate desired first outcome pos e over) in
              rw over (step_down-Ends fuel (next_minus first) positive (omega arith))
        ])
