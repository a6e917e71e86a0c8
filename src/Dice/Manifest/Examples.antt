-- ===== src/Dice/Manifest/Examples.antt =====
-- operator_dice.py: a seeded preview, and the theorems at it.
use baen_economy_engine.Prelude.Dict.{contains}
use baen_economy_engine.Dice.Classify.{three_d6_check, classify_3d6}
use baen_economy_engine.Dice.Sampling.{seeded_die}
use baen_economy_engine.Prelude.{
  ℕ, suc, ◌≤◌, ◌≡◌, ◌≢◌, refl, true, none, some, String, List, [], ◌∷◌, ok, err,
}
use baen_economy_engine.Prelude.Int.{pos, ◌-ℤ◌, ◌+ℤ◌, sum_ℤ}
use baen_economy_engine.Stockflow.Fixture.{prims}
use baen_economy_engine.Stockflow.Hashing.{is_sha256}
use baen_economy_engine.Dice.Manifest.{Receipted, Manifest, body_hash}
use baen_economy_engine.Dice.Manifest.Checks.{
  validate_roll_manifest, issue, check_contents, check_rolls, check_roll, expected_roll,
}
use baen_economy_engine.Dice.Manifest.Preview.{DiceSource, die, roll_preview_checks, preview_check}
use baen_economy_engine.Dice.Manifest.Accepted.{HasRolls, validate_roll_manifest-HasRolls}
use baen_economy_engine.Dice.Manifest.Issued.{roll_preview_checks-validate_roll_manifest}

-- Stand-ins of the hash and of the random source.
abbrev source : DiceSource
source = record {
  keyed = record { sha256_digest = λ bytes. []; hmac_sha256 = λ key bytes. 3 ∷ [] };
  randbelow = λ coordinate sides. 0;
  fuel = 1;
}

bounded : (c : List String) (n : ℕ) → 1 ≤ n → suc (source.randbelow c n) ≤ n
bounded c n h = h

falls : (c : List String) → (f : ℕ) × (die source (some "laden") c ≡ ok f)
unfolding die seeded_die
falls c = (4, refl)

digests : (bytes : List ℕ) → is_sha256 (prims.sha256 bytes) ≡ true
unfolding is_sha256
digests bytes = refl

abbrev value_of {ℓ} : {A : Type ℓ} → A → Receipted A → A
value_of default (ok a) = a
value_of default (err e) = default

abbrev no_manifest : Manifest
no_manifest = record {
  schema = "";
  authority = "";
  binding_scope = "";
  campaign_execution_rolls_resolved = pos 7;
  method = "";
  seed_fingerprint = none;
  rolls = [];
  warning = "";
  manifest_hash = "";
}

abbrev preview : Manifest
preview =
    value_of no_manifest (roll_preview_checks prims source "baen" "trial" (pos 1) (some "laden"))

preview_lem : validate_roll_manifest prims preview ≡ ok tt
unfolding validate_roll_manifest roll_preview_checks preview_check die seeded_die three_d6_check
    classify_3d6 ◌-ℤ◌ ◌+ℤ◌ sum_ℤ issue body_hash check_contents is_sha256 check_rolls check_roll
    contains expected_roll
preview_lem = refl

roll_preview_checks-validate_roll_manifest_example :
    (m : Manifest) × (roll_preview_checks prims source "baen" "trial" (pos 1) (some "laden") ≡ ok m)
    × (validate_roll_manifest prims m ≡ ok tt)
    × HasRolls m m.rolls
    × (m.rolls ≢ [])
roll_preview_checks-validate_roll_manifest_example =
    roll_preview_checks-validate_roll_manifest prims source "baen" "trial" (pos 1) (some "laden")
      bounded falls digests refl

validate_roll_manifest-HasRolls_example :
    (preview.manifest_hash ≡ body_hash prims preview)
    × (preview.campaign_execution_rolls_resolved ≡ pos 0)
    × HasRolls preview preview.rolls
validate_roll_manifest-HasRolls_example = validate_roll_manifest-HasRolls prims preview preview_lem
