-- ===== src/Prelude/Outcome.antt =====
-- A call that may raise: its value, or the error it raised.
use mathlib.Core.Path.{◌≡◌, refl}
use mathlib.Core.Bool.{Bool, true, false}

pub data Result {ℓ κ} (E : Type ℓ) (A : Type κ) : Type (ℓ ⊔ κ) where
  ok : A → Result E A
  err : E → Result E A

infixl 5 ◌>>=◌ ◌>>◌
abbrev pub ◌>>=◌ {ℓ κ ρ} :
    {E : Type ℓ} {A : Type κ} {B : Type ρ} → Result E A → (A → Result E B) → Result E B
ok a >>= f = f a
err e >>= f = err e

abbrev pub ◌>>◌ {ℓ κ} : {E : Type ℓ} {B : Type κ} → Result E (Unit {0}) → Result E B → Result E B
m >> k = m >>= λ _. k

-- `if test: raise e`
abbrev pub raise_if {ℓ} : {E : Type ℓ} → Bool → E → Result E (Unit {0})
raise_if true e = err e
raise_if false e = ok tt

-- Inversion of a sequence that returned.
pub >>=-eq-ok {ℓ κ ρ} :
    {E : Type ℓ} {A : Type κ} {B : Type ρ} (first : Result E A) (next : A → Result E B) {value : B}
    → (first >>= next) ≡ ok value
    → (result : A) × (first ≡ ok result) × (next result ≡ ok value)
>>=-eq-ok (ok result) next h = (result, refl, h)
>>=-eq-ok (err e) next h = cc

pub ok-inj {ℓ κ} : {E : Type ℓ} {A : Type κ} {a b : A} → Path (Result E A) (ok a) (ok b) → a ≡ b
ok-inj h = cc

-- A run that gets past a check.
pub raise_if-ok {ℓ κ} :
    {E : Type ℓ} {A : Type κ} (test : Bool) (e : E) (m : Result E A) {a : A}
    → (raise_if test e >> m) ≡ ok a
    → (test ≡ false) × (m ≡ ok a)
raise_if-ok true e m h = cc
raise_if-ok false e m h = (refl, h)

-- A check that is passed.
pub raise_if-passed {ℓ} :
    {E : Type ℓ} (test : Bool) (e : E) → raise_if test e ≡ ok tt → test ≡ false
raise_if-passed true e h = cc
raise_if-passed false e h = refl
