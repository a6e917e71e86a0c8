-- ===== src/Finance/Amount.antt =====
-- finance.py: the amounts of a payload. `Decimal(text)` is read here: spaces around it are dropped,
-- underscores are ignored, and a text that is no finite number is none.
use baen_economy_engine.Prelude.{
  ℕ, ◌+◌, ◌-◌, Bool, true, false, ◌&&◌, ◌||◌, Option, none, some, List, [], ◌∷◌, ◌++◌, leb, ◌==◌,
  if◌then◌else◌, length, ok, err, ◌>>=◌, ◌>>◌, raise_if,
}
use mathlib.Core.List.{reverse}
use baen_economy_engine.Prelude.Text.{codes, is_space}
use baen_economy_engine.Decimal.Number.{Decimal, bias, zero_dec, le_dec, is_negative}
use baen_economy_engine.Decimal.Context.{digits}
use baen_economy_engine.Json.{Value, int, text, raw, int_text}
use baen_economy_engine.Finance.Patterns.{Journal, bad_amount, is_digit, read_number}

drop_spaces : List ℕ → List ℕ
drop_spaces [] = []
drop_spaces (c ∷ cs) = let rest = drop_spaces cs in if is_space c then rest else c ∷ cs

strip : List ℕ → List ℕ
unfolding drop_spaces is_space
strip cs = reverse (drop_spaces (reverse (drop_spaces cs)))

module _ (decimal_digit : ℕ → Option ℕ) where
  -- Underscores vanish, and any decimal digit of Unicode becomes the ASCII one.
  to_ascii : List ℕ → List ℕ
  to_ascii [] = []
  to_ascii (c ∷ cs) =
      let rest = to_ascii cs in
      if c == b'_'
      then rest
      else elim (decimal_digit c) [ none ↦ c ∷ rest | some d ↦ (48 + d) ∷ rest ]

-- The digits in front, and what follows them.
span_digits : List ℕ → List ℕ × List ℕ
unfolding is_digit
span_digits [] = ([], [])
span_digits (c ∷ cs) =
    let rest = span_digits cs in if is_digit c then (c ∷ rest.0, rest.1) else ([], c ∷ cs)

-- A sign in front: whether it is a minus, and what follows.
read_sign : List ℕ → Bool × List ℕ
read_sign [] = (false, [])
read_sign (c ∷ cs) =
    if c == b'-' then (true, cs) else if c == b'+' then (false, cs) else (false, c ∷ cs)

read_fraction : List ℕ → List ℕ × List ℕ
unfolding span_digits
read_fraction [] = ([], [])
read_fraction (c ∷ cs) = if c == b'.' then span_digits cs else ([], c ∷ cs)

-- The exponent of the last digit, counted from the least one that is stored.
place : Bool → ℕ → ℕ → Option ℕ
place negative n places =
    if negative
    then (if leb (n + places) bias then some (bias - (n + places)) else none)
    else (if leb places (bias + n) then some (bias + n - places) else none)

read_exponent : List ℕ → ℕ → Option ℕ
unfolding read_sign span_digits read_number place
read_exponent [] places = place false 0 places
read_exponent (c ∷ cs) places =
    let (negative, rest) = read_sign cs in
    let (ds, end) = span_digits rest in
    if (c == b'e' || c == b'E') && leb 1 (length ds) && length end == 0
    then place negative (read_number ds) places
    else none

-- The greatest exponent of a number in scientific form.
abbrev max_exponent : ℕ
max_exponent = bias + 999999999999999999

sized : Bool → ℕ → Option ℕ → Option Decimal
unfolding digits
sized negative c none = none
sized negative c (some e) =
    if leb (digits c + e) (max_exponent + 1)
    then some (record { negative = negative; coefficient = c; exponent = e })
    else none

read_plain : List ℕ → Option Decimal
unfolding read_sign span_digits read_fraction read_exponent read_number sized
read_plain cs =
    let (negative, rest) = read_sign cs in
    let (whole_digits, after) = span_digits rest in
    let (places, end) = read_fraction after in
    let ds = whole_digits ++ places in
    if leb 1 (length ds)
    then sized negative (read_number ds) (read_exponent end (length places))
    else none

-- `Decimal(text)`, where it is finite.
unfoldable pub read_decimal : (ℕ → Option ℕ) → List ℕ → Option Decimal
unfolding strip to_ascii read_plain
read_decimal decimal_digit cs = read_plain (to_ascii decimal_digit (strip cs))

finite : Option Decimal → Journal Decimal
finite none = err bad_amount
finite (some d) = ok d

-- `_payload_decimal`, of what the key holds
unfoldable pub payload_decimal : (ℕ → Option ℕ) → Option Value → Journal Decimal
unfolding finite read_decimal
payload_decimal decimal_digit (some (text s)) = finite (read_decimal decimal_digit (codes s))
payload_decimal decimal_digit (some (raw cs)) = finite (read_decimal decimal_digit cs)
payload_decimal decimal_digit (some (int n)) = finite (read_decimal decimal_digit (int_text n))
payload_decimal decimal_digit _ = err bad_amount

-- `_positive_amount` and `_nonnegative_amount`
unfoldable pub positive_amount : (ℕ → Option ℕ) → Option Value → Journal Decimal
unfolding payload_decimal
positive_amount decimal_digit value = do
  amount ← payload_decimal decimal_digit value
  raise_if (le_dec amount zero_dec) bad_amount
  ok amount

unfoldable pub nonnegative_amount : (ℕ → Option ℕ) → Option Value → Journal Decimal
unfolding payload_decimal
nonnegative_amount decimal_digit value = do
  amount ← payload_decimal decimal_digit value
  raise_if (is_negative amount) bad_amount
  ok amount
