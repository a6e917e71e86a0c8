-- ===== src/Prelude/Text.antt =====
-- Python text: code points, `str.strip`, and the control-character pattern of the engine.
use Prim.Native.Nat.{ℕ, zero, suc, ◌+◌, ◌/◌, ◌%◌}
use Prim.Native.Char.{code}
use Prim.Native.String.{String, ◌++◌ as append}
use mathlib.Core.Bool.{Bool, true, false, ◌&&◌, ◌||◌, not}
use mathlib.Core.List.{List, [], ◌∷◌, ◌++◌, reverse}
use baen_economy_engine.Prelude.Tests.{leb, ltb, ◌==◌, if◌then◌else◌}
use baen_economy_engine.Prelude.Lists.{any}

abbrev pub codes : String → List ℕ
codes String.[] = []
codes (String.◌∷◌ c s) = code c ∷ codes s

-- `str.isspace` of one code point.
unfoldable pub is_space : ℕ → Bool
is_space c =
    (leb 9 c && leb c 13)
    || (leb 28 c && leb c 32)
    || c == 0x85
    || c == 0xa0
    || c == 0x1680
    || (leb 0x2000 c && leb c 0x200a)
    || c == 0x2028
    || c == 0x2029
    || c == 0x202f
    || c == 0x205f
    || c == 0x3000

-- `value.strip()` is not empty.
unfoldable pub has_text : String → Bool
unfolding is_space
has_text s = any (λ c. not (is_space c)) (codes s)

starts_with_space : List ℕ → Bool
starts_with_space [] = false
starts_with_space (c ∷ cs) = is_space c

-- `value == value.strip()`: there is no space at either end.
unfoldable pub is_trimmed : String → Bool
unfolding is_space starts_with_space
is_trimmed s = not (starts_with_space (codes s)) && not (starts_with_space (reverse (codes s)))

-- `CONTROL_RE.search(value)`, the pattern `[\x00-\x1f\x7f]`.
unfoldable pub has_control : String → Bool
has_control s = any (λ c. leb c 0x1f || c == 0x7f) (codes s)

utf8_code : ℕ → List ℕ
utf8_code c =
    if ltb c 0x80
    then c ∷ []
    else if ltb c 0x800
    then (0xc0 + c / 64) ∷ (0x80 + c % 64) ∷ []
    else if ltb c 0x10000
    then (0xe0 + c / 4096) ∷ (0x80 + c / 64 % 64) ∷ (0x80 + c % 64) ∷ []
    else (0xf0 + c / 262144) ∷ (0x80 + c / 4096 % 64) ∷ (0x80 + c / 64 % 64) ∷ (0x80 + c % 64) ∷ []

-- `.encode("utf-8")`
unfoldable pub utf8 : List ℕ → List ℕ
unfolding utf8_code
utf8 [] = []
utf8 (c ∷ cs) = utf8_code c ++ utf8 cs

digit_text : ℕ → String
digit_text n =
    if n == 0
    then "0"
    else if n == 1
    then "1"
    else if n == 2
    then "2"
    else if n == 3
    then "3"
    else if n == 4
    then "4"
    else if n == 5
    then "5"
    else if n == 6
    then "6"
    else if n == 7
    then "7"
    else if n == 8
    then "8"
    else "9"

digits_text : ℕ → ℕ → String
unfolding digit_text
digits_text zero n = ""
digits_text (suc fuel) n = elim (ltb n 10) [
  | true ↦ digit_text n
  | false ↦ append (digits_text fuel (n / 10)) (digit_text (n % 10))
]

-- `str(n)` of a number from zero up; a number is more than the count of its digits, or zero.
unfoldable pub number_text : ℕ → String
unfolding digits_text
number_text n = digits_text (suc n) n
