-- ===== src/Dice/Manifest/Checks.antt =====
-- operator_dice.py: `validate_roll_manifest`.
use baen_economy_engine.Prelude.{
  ℕ, Bool, true, false, ◌&&◌, ◌||◌, not, Option, none, some, String, List, [], ◌∷◌, map, length,
  all, any, leb, ◌==◌, str_eq, if◌then◌else◌, ok, err, ◌>>=◌, ◌>>◌, raise_if,
}
use baen_economy_engine.Prelude.Int.{ℤ, pos, ◌-ℤ◌, ◌+ℤ◌, eqb_ℤ, sum_ℤ}
use baen_economy_engine.Prelude.Dict.{contains, string_eq}
use baen_economy_engine.Prelude.Text.{has_text}
use baen_economy_engine.Events.Types.{Primitives}
use baen_economy_engine.Stockflow.Hashing.{is_sha256}
use baen_economy_engine.Dice.Classify.{classify_3d6, sum_faces}
use baen_economy_engine.Dice.Manifest.{
  bad_hash, bad_schema, resolves_rolls, bad_authority, bad_fingerprint, bad_count, bad_key,
  bad_target, bad_dice, bad_modifier, bad_derived, bad_method, Receipted, by_dice, Modifier, Roll,
  Manifest, dice_schema, preview_authority, preview_scope, seeded_method, random_method,
  target_source, no_effect, outcome_text, body_hash,
}

-- `expected_rolls`
unfoldable pub expected_roll : String → Option (String × ℤ)
expected_roll key =
    if str_eq key "vara_administration"
    then some ("Vara administration overview", pos 16)
    else if str_eq key "vara_merchant"
    then some ("Vara merchant overview", pos 15)
    else none

unfoldable pub same_text : Option String → Option String → Bool
same_text none none = true
same_text (some s) (some t) = str_eq s t
same_text _ _ = false

unfoldable pub check_target : Roll → Option (String × ℤ) → Receipted ℤ
check_target r none = err bad_key
check_target r (some (label, target)) = do
  raise_if
      (not (str_eq r.label label)
        || (not (eqb_ℤ r.base_target target) || not (str_eq r.target_authority target_source)))
      bad_target
  ok target

abbrev pub is_face : ℕ → Bool
is_face f = leb 1 f && leb f 6

abbrev pub value_of_modifier : Modifier → ℤ
value_of_modifier m = m.value

-- The derived fields are what the dice and the modifiers make.
unfoldable pub check_derived : Roll → ℤ → Receipted (Unit {0})
check_derived r target = do
  outcome ←
      by_dice
        (classify_3d6 (sum_faces r.dice) (target +ℤ sum_ℤ (map value_of_modifier r.modifiers)))
  let effective = target +ℤ sum_ℤ (map value_of_modifier r.modifiers)
  raise_if
      (not (r.total == sum_faces r.dice)
        || (not (eqb_ℤ r.modifier_total (sum_ℤ (map value_of_modifier r.modifiers)))
            || (not (eqb_ℤ r.effective_target effective)
                || (not (eqb_ℤ r.margin (effective -ℤ pos (sum_faces r.dice)))
                    || not (str_eq r.outcome (outcome_text outcome))))))
      bad_derived

-- The body of the loop over the rolls.
unfoldable pub check_roll : String → Option String → List String → Roll → Receipted (Unit {0})
unfolding check_target check_derived same_text
check_roll method fingerprint seen r = do
  raise_if (contains r.roll_key seen) bad_key
  target ← check_target r (expected_roll r.roll_key)
  raise_if (not (length r.dice == 3) || not (all is_face r.dice)) bad_dice
  raise_if (any (λ (m : Modifier). not (has_text m.label)) r.modifiers) bad_modifier
  check_derived r target
  raise_if
      (not (str_eq r.method method)
        || (not (same_text r.seed_fingerprint fingerprint) || not (str_eq r.effect no_effect)))
      bad_method

unfoldable pub check_rolls : String → Option String → List String → List Roll → Receipted (Unit {0})
check_rolls method fingerprint seen [] = ok tt
check_rolls method fingerprint seen (r ∷ rs) = do
  check_roll method fingerprint seen r
  check_rolls method fingerprint (r.roll_key ∷ seen) rs

unfoldable pub is_some_hash : Option String → Bool
is_some_hash none = false
is_some_hash (some s) = is_sha256 s

abbrev pub is_given : Option String → Bool
is_given none = false
is_given (some _) = true

-- What a method says of the fingerprint.
unfoldable pub check_fingerprint : String → Option String → Receipted (Unit {0})
unfolding is_some_hash
check_fingerprint method fingerprint =
    if str_eq method seeded_method
    then raise_if (not (is_some_hash fingerprint)) bad_fingerprint
    else raise_if (is_given fingerprint) bad_fingerprint

-- A manifest with no rolls, and one with rolls.
unfoldable pub check_contents : Manifest → List Roll → Receipted (Unit {0})
unfolding check_fingerprint
check_contents m [] =
    raise_if
      (not (str_eq m.authority "none")
        || (not (str_eq m.binding_scope "none")
            || (not (str_eq m.method "none") || is_given m.seed_fingerprint)))
      bad_authority
check_contents m (r ∷ rs) = do
  raise_if
      (not (str_eq m.authority preview_authority)
        || (not (str_eq m.binding_scope preview_scope)
            || not (str_eq m.method seeded_method || str_eq m.method random_method)))
      bad_authority
  check_fingerprint m.method m.seed_fingerprint
  raise_if (not (length (r ∷ rs) == 2)) bad_count
  check_rolls m.method m.seed_fingerprint [] (r ∷ rs)

-- `validate_roll_manifest`
unfoldable pub validate_roll_manifest : Primitives → Manifest → Receipted (Unit {0})
validate_roll_manifest prims m = do
  raise_if (not (str_eq m.manifest_hash (body_hash prims m))) bad_hash
  raise_if (not (str_eq m.schema dice_schema)) bad_schema
  raise_if (not (eqb_ℤ m.campaign_execution_rolls_resolved (pos 0))) resolves_rolls
  check_contents m m.rolls

-- The body under its hash, after the check.
unfoldable pub issue : Primitives → Manifest → Receipted Manifest
issue prims m = do
  let issued = record m { manifest_hash = body_hash prims m }
  validate_roll_manifest prims issued
  ok issued

-- `empty_roll_manifest`
unfoldable pub empty_roll_manifest : Primitives → Receipted Manifest
empty_roll_manifest prims = issue prims (record {
  schema = dice_schema;
  authority = "none";
  binding_scope = "none";
  campaign_execution_rolls_resolved = pos 0;
  method = "none";
  seed_fingerprint = none;
  rolls = [];
  warning = "No dice were rolled; all seven binding execution rolls remain pending.";
  manifest_hash = "";
})
