-- ===== src/Dice/Sampling.antt =====
-- operator_dice.py: `_die`, the seeded die with rejection sampling. The keyed hash (`hmac` over
-- SHA-256, and SHA-256 of the seed) is a parameter on bytes.
use native.Mathlib.Nat.{mod-lt, mul-add-mod_self_right, mod-eq_of_lt, div-add-mod'}
use baen_economy_engine.Prelude.{
  ℕ, zero, suc, ◌+◌, ◌-◌, ◌*◌, ◌/◌, ◌%◌, ◌^◌, ◌≤◌, ◌<◌, ◌≡◌, false, Option, none, some, String,
  List, [], ◌∷◌, ◌++◌, ltb, ◌==◌, if◌then◌else◌, Result, ok, err, arith, subst, ap, ◌∙◌, lt→ltb,
}
use baen_economy_engine.Prelude.Text.{codes, utf8}
use baen_economy_engine.Json.{nat_text}
use baen_economy_engine.Dice.Classify.{DiceError, bad_sides}

pub record KeyedHash : Type 0 where
  pub sha256_digest : List ℕ → List ℕ
  pub hmac_sha256 : List ℕ → List ℕ → List ℕ

abbrev pub modulus : ℕ
modulus = 2 ^ 64

abbrev pub limit_of : ℕ → ℕ
limit_of sides = modulus - modulus % sides

-- `int.from_bytes(digest[:8], "big")`; `n` is the count of bytes still to read.
big_endian : ℕ → ℕ → List ℕ → ℕ
big_endian zero acc bytes = acc
big_endian (suc n) acc [] = acc
big_endian (suc n) acc (b ∷ bytes) = big_endian n (acc * 256 + b) bytes

-- `"\x1f".join(coordinate)`
join_coordinate : List String → List ℕ
join_coordinate [] = []
join_coordinate (s ∷ []) = codes s
join_coordinate (s ∷ t ∷ rest) = codes s ++ (0x1f ∷ join_coordinate (t ∷ rest))

module _ (hash : KeyedHash) where
  open hash use {sha256_digest, hmac_sha256}

  -- The sample of one attempt.
  unfoldable pub sample_at : String → List String → ℕ → ℕ
  unfolding big_endian join_coordinate
  sample_at seed coordinate attempt = big_endian 8 0 (
      hmac_sha256 (sha256_digest (utf8 (codes seed)))
        (utf8 (join_coordinate coordinate) ++ (0x1f ∷ nat_text attempt)))

-- The `while True` loop over the samples; `none` means that the fuel ran out.
unfoldable pub draw : (ℕ → ℕ) → ℕ → ℕ → ℕ → Option ℕ
draw sample sides zero attempt = none
draw sample sides (suc fuel) attempt =
    let again = draw sample sides fuel (attempt + 1) in
    if ltb (sample attempt) (limit_of sides) then some (sample attempt % sides + 1) else again

-- `_die` with a seed.
unfoldable pub seeded_die : KeyedHash → ℕ → ℕ → String → List String → Result DiceError (Option ℕ)
unfolding draw sample_at
seeded_die hash fuel sides seed coordinate =
    if ltb sides 2 then err bad_sides else ok (draw (sample_at hash seed coordinate) sides fuel 0)

le→ltb : (a b : ℕ) → b ≤ a → ltb a b ≡ false
le→ltb a b h = ground arith

-- With an accepted sample within the fuel the loop returns, and what it returns is the face of the
-- first accepted sample.
pub draw_first :
    (sample : ℕ → ℕ) (sides k fuel attempt : ℕ)
    → k < fuel
    → ((j : ℕ) → j < k → limit_of sides ≤ sample (attempt + j))
    → sample (attempt + k) < limit_of sides
    → draw sample sides fuel attempt ≡ some (sample (attempt + k) % sides + 1)
unfolding draw
draw_first sample sides k zero attempt l early hit = absurd (omega arith)
draw_first sample sides zero (suc fuel) attempt l early hit =
    let now : sample attempt < limit_of sides =
      subst (λ n. sample n < limit_of sides) (omega arith) hit in
    rw (lt→ltb _ _ now) (ap (λ n. some (sample n % sides + 1)) (omega arith))
draw_first sample sides (suc k) (suc fuel) attempt l early hit =
    let now : limit_of sides ≤ sample attempt =
      subst (λ n. limit_of sides ≤ sample n) (omega arith) (early 0 (omega arith)) in
    let rest =
      draw_first sample sides k fuel (attempt + 1) (omega arith)
        (λ j lj. subst (λ n. limit_of sides ≤ sample n) (omega arith) (early (suc j) (omega arith)))
        (subst (λ n. sample n < limit_of sides) (omega arith) hit) in
    rw (le→ltb _ _ now) (rest ∙ ap (λ n. some (sample n % sides + 1)) (omega arith))

-- Every face drawn is one of the die's.
pub draw_range :
    (sample : ℕ → ℕ) (sides fuel attempt face : ℕ)
    → 2 ≤ sides
    → draw sample sides fuel attempt ≡ some face
    → (1 ≤ face) × (face ≤ sides)
unfolding draw
draw_range sample sides zero attempt face two h = absurd (cc)
draw_range sample sides (suc fuel) attempt face two h = ground (
  arith,
  draw_range sample sides fuel (attempt + 1) face two,
  mod-lt (sample attempt) {m = sides} (omega arith),
)

-- How many samples below `n` show the face.
unfoldable pub count_face : ℕ → ℕ → ℕ → ℕ
count_face sides face zero = 0
count_face sides face (suc n) = count_face sides face n + (if n % sides + 1 == face then 1 else 0)

mod_of_block : (q j sides : ℕ) → j < sides → (q * sides + j) % sides ≡ j
mod_of_block q j sides l = mul-add-mod_self_right q sides j ∙ mod-eq_of_lt l

count_blocks :
    (sides face q j : ℕ)
    → 1 ≤ face
    → face ≤ sides
    → j ≤ sides
    → count_face sides face (q * sides + j) ≡ q + (if ltb j face then 0 else 1)
unfolding count_face
count_blocks sides face zero zero lo hi l =
    let none_yet : 0 * sides + 0 ≡ 0 = omega arith in ap (count_face sides face) none_yet ∙ start
  where
    start : count_face sides face 0 ≡ 0 + (if ltb 0 face then 0 else 1)
    start = ground arith
count_blocks sides face (suc q) zero lo hi l =
    let block : suc q * sides + 0 ≡ q * sides + sides = omega arith in
    ap (count_face sides face) block
    ∙ (count_blocks sides face q sides lo hi (omega arith) ∙ ground arith)
count_blocks sides face q (suc j) lo hi l =
    let next : q * sides + suc j ≡ suc (q * sides + j) = omega arith in
    ap (count_face sides face) next
    ∙ ground (arith, count_blocks sides face q j lo hi, mod_of_block q j sides)

-- Rejection leaves no bias: among the samples that are accepted every face of the die stands as
-- often as any other, and less than half of all samples is rejected.
pub sampling_unbiased :
    (sides face : ℕ)
    → 1 ≤ face
    → face ≤ sides
    → sides ≤ 2 ^ 63
    → (count_face sides face (limit_of sides) ≡ modulus / sides) × (modulus < 2 * limit_of sides)
sampling_unbiased sides face lo hi small =
    let blocks : limit_of sides ≡ modulus / sides * sides + 0 =
      omega (arith, div-add-mod' modulus sides) in
    (
      ap (count_face sides face) blocks
          ∙ (count_blocks sides face (modulus / sides) 0 lo hi (omega arith) ∙ ground arith),
      omega (arith, mod-lt modulus {m = sides} (omega arith)),
    )
