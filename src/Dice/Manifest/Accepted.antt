-- ===== src/Dice/Manifest/Accepted.antt =====
-- operator_dice.py: what a manifest that `validate_roll_manifest` accepts is like.
use baen_economy_engine.Prelude.{
  ◌≡◌, ◌≢◌, ◌⊎◌, inl, inr, refl, arith, true, false, ◌||◌, not, Option, none, some, String, List,
  [], ◌∷◌, length, ◌==◌, str_eq, eq_iff, ok, >>=-eq-ok, raise_if-ok, raise_if-passed, Bool-cases,
}
use baen_economy_engine.Prelude.Int.{pos, eqb_ℤ, eqb_ℤ_iff}
use baen_economy_engine.Prelude.Dict.{contains, string_eq}
use baen_economy_engine.Events.Types.{Primitives}
use baen_economy_engine.Stockflow.Hashing.{is_sha256}
use baen_economy_engine.Dice.Manifest.{
  bad_hash, bad_schema, resolves_rolls, bad_authority, bad_fingerprint, bad_count, Roll, Manifest,
  dice_schema, preview_authority, preview_scope, seeded_method, random_method, body_hash,
}
use baen_economy_engine.Dice.Manifest.Checks.{
  check_roll, check_rolls, is_some_hash, is_given, check_fingerprint, check_contents,
  validate_roll_manifest,
}
use baen_economy_engine.Dice.Manifest.Receipt.{IsReceipt, check_roll-IsReceipt}

-- A fingerprint is given exactly for the seeded method, and is a full hash.
abbrev pub HasMethod : Manifest → Type 0
HasMethod m =
    ((m.method ≡ seeded_method)
      × ((f : String) × (m.seed_fingerprint ≡ some f) × (is_sha256 f ≡ true)))
    ⊎ ((m.method ≡ random_method) × (m.seed_fingerprint ≡ none))

given-none : (o : Option String) → is_given o ≡ false → o ≡ none
given-none none h = refl
given-none (some s) h = cc

some_hash-sha256 :
    (o : Option String) → is_some_hash o ≡ true → (f : String) × (o ≡ some f) × (is_sha256 f ≡ true)
unfolding is_some_hash
some_hash-sha256 none h = cc
some_hash-sha256 (some f) h = (f, refl, h)

check_fingerprint-HasMethod :
    (m : Manifest)
    → (str_eq m.method seeded_method || str_eq m.method random_method) ≡ true
    → check_fingerprint m.method m.seed_fingerprint ≡ ok tt
    → HasMethod m
unfolding check_fingerprint
check_fingerprint-HasMethod m known h = elim (Bool-cases (str_eq m.method seeded_method)) [
  | inl seeded ↦
      let e =
        raise_if-passed (not (is_some_hash m.seed_fingerprint)) bad_fingerprint (rw seeded at h) in
      inl (
        (eq_iff m.method seeded_method).0 seeded,
        some_hash-sha256 m.seed_fingerprint (ground (arith, e)),
      )
  | inr other ↦
      let e = raise_if-passed (is_given m.seed_fingerprint) bad_fingerprint (rw other at h) in
      inr ((eq_iff m.method random_method).0 (rw other at known), given-none m.seed_fingerprint e)
]

-- Two receipts, of the two checks.
abbrev pub IsPair : Manifest → List Roll → Type 0
IsPair m rolls =
    (a : Roll) × (b : Roll) × (rolls ≡ a ∷ b ∷ [])
    × (a.roll_key ≢ b.roll_key)
    × IsReceipt m.method m.seed_fingerprint a
    × IsReceipt m.method m.seed_fingerprint b

check_rolls-IsPair :
    (m : Manifest) (rolls : List Roll)
    → (length rolls == 2) ≡ true
    → check_rolls m.method m.seed_fingerprint [] rolls ≡ ok tt
    → IsPair m rolls
unfolding check_rolls contains
check_rolls-IsPair m [] n h = absurd (ground arith)
check_rolls-IsPair m (a ∷ []) n h = absurd (ground arith)
check_rolls-IsPair m (a ∷ b ∷ c ∷ rs) n h = absurd (ground arith)
check_rolls-IsPair m (a ∷ b ∷ []) n h =
    let (_, first, h1) = >>=-eq-ok (check_roll m.method m.seed_fingerprint [] a) _ h in
    let (_, second, _) =
      >>=-eq-ok (check_roll m.method m.seed_fingerprint (a.roll_key ∷ []) b) _ h1 in
    let (_, receipt) = check_roll-IsReceipt m.method m.seed_fingerprint [] a first in
    let (new, receipt') =
      check_roll-IsReceipt m.method m.seed_fingerprint (a.roll_key ∷ []) b second in
    (
      a,
      b,
      refl,
      (λ same. ground (arith, new, (eq_iff a.roll_key b.roll_key).1 same)),
      receipt,
      receipt',
    )

-- No rolls, or the two checks.
abbrev pub HasRolls : Manifest → List Roll → Type 0
HasRolls m rolls =
    ((rolls ≡ []) × (m.authority ≡ "none") × (m.method ≡ "none") × (m.seed_fingerprint ≡ none))
    ⊎ ((m.authority ≡ preview_authority) × HasMethod m × IsPair m rolls)

check_contents-HasRolls :
    (m : Manifest) (rolls : List Roll) → check_contents m rolls ≡ ok tt → HasRolls m rolls
unfolding check_contents
check_contents-HasRolls m [] h =
    let e = raise_if-passed _ bad_authority h in
    inl (
      refl,
      (eq_iff m.authority "none").0 (ground (arith, e)),
      (eq_iff m.method "none").0 (ground (arith, e)),
      given-none m.seed_fingerprint (ground (arith, e)),
    )
check_contents-HasRolls m (r ∷ rs) h =
    let (known, h1) =
      raise_if-ok
        (not (str_eq m.authority preview_authority)
          || (not (str_eq m.binding_scope preview_scope)
              || not (str_eq m.method seeded_method || str_eq m.method random_method)))
        bad_authority _ h in
    let (_, fingerprint, h2) = >>=-eq-ok (check_fingerprint m.method m.seed_fingerprint) _ h1 in
    let (count, h3) = raise_if-ok (not (length (r ∷ rs) == 2)) bad_count _ h2 in
    inr (
      (eq_iff m.authority preview_authority).0 (ground (arith, known)),
      check_fingerprint-HasMethod m (ground (arith, known)) fingerprint,
      check_rolls-IsPair m (r ∷ rs) (ground (arith, count)) h3,
    )

-- A manifest that is accepted carries the hash of its own body and resolves no campaign roll. Either it has
-- no rolls, no authority and no fingerprint, or it has exactly one receipt of each of the two checks: three
-- faces from one to six, the target of the check, and the total, modifier total, effective target, margin
-- and outcome that these make, under the manifest's method and fingerprint; a fingerprint is given exactly
-- for a seeded method and is then a full hash.
pub validate_roll_manifest-HasRolls :
    (prims : Primitives) (m : Manifest)
    → validate_roll_manifest prims m ≡ ok tt
    → (m.manifest_hash ≡ body_hash prims m)
      × (m.campaign_execution_rolls_resolved ≡ pos 0)
      × HasRolls m m.rolls
unfolding validate_roll_manifest
validate_roll_manifest-HasRolls prims m h =
    let (hash, h1) = raise_if-ok (not (str_eq m.manifest_hash (body_hash prims m))) bad_hash _ h in
    let (_, h2) = raise_if-ok (not (str_eq m.schema dice_schema)) bad_schema _ h1 in
    let (none_resolved, h3) =
      raise_if-ok (not (eqb_ℤ m.campaign_execution_rolls_resolved (pos 0))) resolves_rolls _ h2 in
    (
      (eq_iff m.manifest_hash (body_hash prims m)).0 (ground (arith, hash)),
      (eqb_ℤ_iff m.campaign_execution_rolls_resolved (pos 0)).0 (ground (arith, none_resolved)),
      check_contents-HasRolls m m.rolls h3,
    )
