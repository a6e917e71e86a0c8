-- ===== src/Decimal/Text.antt =====
-- domain.py: `canonical_decimal`, the text of a number: the digits with a point, or with an exponent
-- where the number is whole in tens or has more than six zeros behind the point.
use baen_economy_engine.Prelude.{
  ℕ, zero, suc, ◌+◌, ◌-◌, ◌&&◌, List, [], ◌∷◌, ◌++◌, leb, ltb, length, if◌then◌else◌, ◌≡◌, refl,
  true, false,
}
use baen_economy_engine.Prelude.Text.{codes}
use baen_economy_engine.Json.{nat_text}
use baen_economy_engine.Decimal.Number.{Decimal, bias, fraction}

-- The first code points of a list, and the others.
take : ℕ → List ℕ → List ℕ
take zero xs = []
take (suc n) [] = []
take (suc n) (x ∷ xs) = x ∷ take n xs

drop : ℕ → List ℕ → List ℕ
drop zero xs = xs
drop (suc n) [] = []
drop (suc n) (x ∷ xs) = drop n xs

zeros : ℕ → List ℕ
zeros zero = []
zeros (suc n) = b'0' ∷ zeros n

abbrev point : List ℕ → List ℕ
point [] = []
point (x ∷ xs) = b'.' ∷ x ∷ xs

-- The exponent behind an `E`, with its sign.
exponent_text : ℕ → List ℕ
unfolding nat_text
exponent_text above =
    b'E'
    ∷ (if leb bias above then b'+' ∷ nat_text (above - bias) else b'-' ∷ nat_text (bias - above))

-- `str` of a number with these digits and this exponent.
unsigned_text : List ℕ → ℕ → List ℕ
unfolding take drop zeros exponent_text
unsigned_text ds e =
    let n = length ds in
    let places = bias - e in
    if leb e bias && ltb bias (e + n + 6)
    then (if ltb places n
        then take (n - places) ds ++ point (drop (n - places) ds)
        else b'0' ∷ b'.' ∷ (zeros (places - n) ++ ds))
    else take 1 ds ++ point (drop 1 ds) ++ exponent_text (e + n - 1)

-- `canonical_decimal`
unfoldable pub canonical_decimal : Decimal → List ℕ
unfolding unsigned_text nat_text
canonical_decimal d =
    let body = unsigned_text (nat_text d.coefficient) d.exponent in
    if d.negative then b'-' ∷ body else body

hundredths : canonical_decimal (fraction 125 2) ≡ codes "1.25"
unfolding canonical_decimal
hundredths = refl

small :
    canonical_decimal (record { negative = true; coefficient = 12; exponent = bias - 8 })
    ≡ codes "-1.2E-7"
unfolding canonical_decimal
small = refl

tens :
    canonical_decimal (record { negative = false; coefficient = 70; exponent = bias + 2 })
    ≡ codes "7.0E+3"
unfolding canonical_decimal
tens = refl
