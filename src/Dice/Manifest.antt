-- ===== src/Dice/Manifest.antt =====
-- operator_dice.py: the receipts of rolls, and the text that is hashed for them.
pub mod Checks
pub mod Preview
pub mod Receipt
pub mod Accepted
pub mod Made
pub mod Issued
mod Examples
use baen_economy_engine.Prelude.{
  ℕ, ◌+◌, Bool, true, false, ◌&&◌, ◌||◌, not, Option, none, some, String, List, [], ◌∷◌, map,
  length, all, any, leb, ◌==◌, str_eq, if◌then◌else◌, Result, ok, err, ◌>>=◌, ◌>>◌, raise_if,
}
use baen_economy_engine.Prelude.Int.{ℤ, pos, ◌-ℤ◌, ◌+ℤ◌, eqb_ℤ, sum_ℤ}
use baen_economy_engine.Prelude.Dict.{contains, string_eq}
use baen_economy_engine.Prelude.Text.{codes, utf8, has_text, number_text}
use baen_economy_engine.Json.{
  Value, Items, Fields, null, int, text, obj, arr, nil, cons, end, field, canonical_json,
}
use baen_economy_engine.Events.Types.{Primitives}
use baen_economy_engine.Stockflow.Hashing.{is_sha256}
use baen_economy_engine.Dice.Classify.{
  DiceError, Outcome, critical_success, success_by_5_plus, success, exact_target, failure,
  failure_by_5_plus, critical_failure, classify_3d6, sum_faces, Check, three_d6_check,
}
use baen_economy_engine.Dice.Sampling.{KeyedHash, seeded_die}

-- What the file raises. A die out of fuel is the model's own.
pub data ReceiptError : Type 0 where
  empty_seed bad_hash bad_schema resolves_rolls bad_authority bad_fingerprint bad_count :
      ReceiptError
  bad_key bad_target bad_dice bad_modifier bad_derived bad_method out_of_fuel : ReceiptError
  from_dice : DiceError → ReceiptError

abbrev pub Receipted {ℓ} : Type ℓ → Type ℓ
Receipted A = Result ReceiptError A

abbrev pub by_dice {ℓ} : {A : Type ℓ} → Result DiceError A → Receipted A
by_dice (ok a) = ok a
by_dice (err e) = err (from_dice e)

pub record Modifier : Type 0 where
  pub label : String
  pub value : ℤ

pub record Roll : Type 0 where
  pub roll_key : String
  pub label : String
  pub dice : List ℕ
  pub total : ℕ
  pub base_target : ℤ
  pub target_authority : String
  pub modifiers : List Modifier
  pub modifier_total : ℤ
  pub effective_target : ℤ
  pub margin : ℤ
  pub outcome : String
  pub method : String
  pub seed_fingerprint : Option String
  pub effect : String

pub record Manifest : Type 0 where
  pub schema : String
  pub authority : String
  pub binding_scope : String
  pub campaign_execution_rolls_resolved : ℤ
  pub method : String
  pub seed_fingerprint : Option String
  pub rolls : List Roll
  pub warning : String
  pub manifest_hash : String

-- `DICE_SCHEMA` and the texts that the checks compare.
abbrev pub dice_schema : String
dice_schema = "tnp.economy.dice-manifest/1"

abbrev pub preview_authority : String
preview_authority = "illustrative_preview_only"

abbrev pub preview_scope : String
preview_scope = "this persisted preview artifact only"

abbrev pub seeded_method : String
seeded_method = "hmac_sha256_seeded_preview"

abbrev pub random_method : String
random_method = "system_secure_random"

abbrev pub target_source : String
target_source = "hybrid-business-ops profile; not the Laden source"

abbrev pub no_effect : String
no_effect = "informational only; no state or financial effect"

abbrev pub outcome_text : Outcome → String
outcome_text critical_success = "critical_success"
outcome_text success_by_5_plus = "success_by_5_plus"
outcome_text success = "success"
outcome_text exact_target = "exact_target"
outcome_text failure = "failure"
outcome_text failure_by_5_plus = "failure_by_5_plus"
outcome_text critical_failure = "critical_failure"

abbrev text_or_null : Option String → Value
text_or_null none = null
text_or_null (some s) = text s

faces_value : List ℕ → Items
faces_value [] = nil
faces_value (f ∷ fs) = cons (int (pos f)) (faces_value fs)

modifiers_value : List Modifier → Items
modifiers_value [] = nil
modifiers_value (m ∷ ms) =
    cons (obj (field "label" (text m.label) (field "value" (int m.value) end))) (modifiers_value ms)

roll_value : Roll → Value
unfolding faces_value modifiers_value
roll_value r = obj (
    field "roll_key" (text r.roll_key) (
      field "label" (text r.label) (
        field "dice" (arr (faces_value r.dice)) (
          field "total" (int (pos r.total)) (
            field "base_target" (int r.base_target) (
              field "target_authority" (text r.target_authority) (
                field "modifiers" (arr (modifiers_value r.modifiers)) (
                  field "modifier_total" (int r.modifier_total) (
                    field "effective_target" (int r.effective_target) (
                      field "margin" (int r.margin) (
                        field "outcome" (text r.outcome) (
                          field "method" (text r.method) (
                            field "seed_fingerprint" (text_or_null r.seed_fingerprint)
                              (field "effect" (text r.effect) end))))))))))))))

rolls_value : List Roll → Items
unfolding roll_value
rolls_value [] = nil
rolls_value (r ∷ rs) = cons (roll_value r) (rolls_value rs)

-- The manifest without its hash.
body_value : Manifest → Value
unfolding rolls_value
body_value m = obj (
    field "schema" (text m.schema) (
      field "authority" (text m.authority) (
        field "binding_scope" (text m.binding_scope) (
          field "campaign_execution_rolls_resolved" (int m.campaign_execution_rolls_resolved) (
            field "method" (text m.method) (
              field "seed_fingerprint" (text_or_null m.seed_fingerprint) (
                field "rolls" (arr (rolls_value m.rolls))
                  (field "warning" (text m.warning) end))))))))

-- `canonical_hash` of the codec
unfoldable pub body_hash : Primitives → Manifest → String
unfolding body_value
body_hash prims m = prims.sha256 (canonical_json (body_value m))
