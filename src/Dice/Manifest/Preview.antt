-- ===== src/Dice/Manifest/Preview.antt =====
-- operator_dice.py: `roll_preview_checks`.
use Prim.Native.String.{◌++◌ as append}
use baen_economy_engine.Prelude.{
  ℕ, suc, ◌+◌, Bool, false, Option, none, some, String, List, [], ◌∷◌, str_eq, ok, err, ◌>>=◌, ◌>>◌,
  raise_if,
}
use baen_economy_engine.Prelude.Int.{ℤ, pos, negsuc}
use baen_economy_engine.Prelude.Dict.{string_eq}
use baen_economy_engine.Prelude.Text.{codes, utf8, number_text}
use baen_economy_engine.Events.Types.{Primitives}
use baen_economy_engine.Dice.Classify.{Check, three_d6_check}
use baen_economy_engine.Dice.Sampling.{KeyedHash, seeded_die}
use baen_economy_engine.Dice.Manifest.{
  empty_seed, out_of_fuel, Receipted, by_dice, Roll, Manifest, dice_schema, preview_authority,
  preview_scope, seeded_method, random_method, target_source, no_effect, outcome_text,
}
use baen_economy_engine.Dice.Manifest.Checks.{issue}

-- How a die falls at a coordinate: with a seed by `_die`, else by `secrets.randbelow`, whose answers are
-- given as a function of the coordinate.
pub record DiceSource : Type 0 where
  pub keyed : KeyedHash
  pub randbelow : List String → ℕ → ℕ
  pub fuel : ℕ

unfoldable pub face_of : Option ℕ → Receipted ℕ
face_of none = err out_of_fuel
face_of (some f) = ok f

unfoldable pub die : DiceSource → Option String → List String → Receipted ℕ
unfolding face_of
die source none coordinate = ok (source.randbelow coordinate 6 + 1)
die source (some seed) coordinate = do
  drawn ← by_dice (seeded_die source.keyed source.fuel 6 seed coordinate)
  face_of drawn

abbrev pub method_of : Option String → String
method_of none = random_method
method_of (some _) = seeded_method

abbrev pub fingerprint_of : Primitives → Option String → Option String
fingerprint_of prims none = none
fingerprint_of prims (some seed) = some (prims.sha256 (utf8 (codes seed)))

abbrev pub is_empty_seed : Option String → Bool
is_empty_seed none = false
is_empty_seed (some seed) = str_eq seed ""

-- `str(period_index)`
abbrev pub period_text : ℤ → String
period_text (pos n) = number_text n
period_text (negsuc n) = append "-" (number_text (suc n))

module _ (prims : Primitives) (source : DiceSource) (campaign timeline : String) (period : ℤ)
    (seed : Option String) where
  abbrev pub coordinate : String → String → List String
  coordinate key index = campaign ∷ timeline ∷ period_text period ∷ key ∷ index ∷ []

  abbrev pub roll_of : String → String → Check → Roll
  roll_of key label c = record {
    roll_key = key;
    label = label;
    dice = c.dice;
    total = c.total;
    base_target = c.base_target;
    target_authority = target_source;
    modifiers = [];
    modifier_total = c.modifier_total;
    effective_target = c.effective_target;
    margin = c.margin;
    outcome = outcome_text c.outcome;
    method = method_of seed;
    seed_fingerprint = fingerprint_of prims seed;
    effect = no_effect;
  }

  -- `_three_d6_check`, for no modifiers
  unfoldable pub preview_check : String → String → ℤ → Receipted Roll
  preview_check key label target = do
    a ← die source seed (coordinate key "1")
    b ← die source seed (coordinate key "2")
    c ← die source seed (coordinate key "3")
    check ← by_dice (three_d6_check a b c target [])
    ok (roll_of key label check)

  abbrev pub preview_body : List Roll → Manifest
  preview_body rolls = record {
    schema = dice_schema;
    authority = preview_authority;
    binding_scope = preview_scope;
    campaign_execution_rolls_resolved = pos 0;
    method = method_of seed;
    seed_fingerprint = fingerprint_of prims seed;
    rolls = rolls;
    warning =
        "These checks are not the seven binding Operation Laden Table rolls and have no effect on stock, money, or campaign canon.";
    manifest_hash = "";
  }

  -- `roll_preview_checks`
  unfoldable pub roll_preview_checks : Receipted Manifest
  roll_preview_checks = do
    raise_if (is_empty_seed seed) empty_seed
    administration ← preview_check "vara_administration" "Vara administration overview" (pos 16)
    merchant ← preview_check "vara_merchant" "Vara merchant overview" (pos 15)
    issue prims (preview_body (administration ∷ merchant ∷ []))
