-- ===== src/Dice/Manifest/Issued.antt =====
-- operator_dice.py: `roll_preview_checks` returns a manifest, which its own check accepts.
use baen_economy_engine.Prelude.{
  ℕ, suc, ◌≤◌, ◌≡◌, ◌≢◌, refl, ap, arith, true, false, ◌||◌, Option, none, some, String, List, [],
  ◌∷◌, str_eq, eq_iff, ok,
}
use baen_economy_engine.Prelude.Int.{ℤ, pos, ◌+ℤ◌, sum_ℤ}
use baen_economy_engine.Prelude.Dict.{contains, string_eq}
use baen_economy_engine.Prelude.Text.{codes, utf8}
use baen_economy_engine.Events.Types.{Primitives}
use baen_economy_engine.Stockflow.Hashing.{is_sha256}
use baen_economy_engine.Dice.Classify.{sum_faces}
use baen_economy_engine.Dice.Manifest.{Roll, Manifest, seeded_method, random_method, body_hash}
use baen_economy_engine.Dice.Manifest.Checks.{
  expected_roll, check_rolls, is_some_hash, check_fingerprint, check_contents,
  validate_roll_manifest,
}
use baen_economy_engine.Dice.Manifest.Checks.{issue, is_some_hash}
use baen_economy_engine.Stockflow.Hashing.{is_sha256}
use baen_economy_engine.Dice.Manifest.Preview.{
  DiceSource, die, method_of, fingerprint_of, is_empty_seed, coordinate, preview_check,
  preview_body, roll_preview_checks,
}
use baen_economy_engine.Dice.Manifest.Accepted.{HasRolls, validate_roll_manifest-HasRolls}
use baen_economy_engine.Dice.Manifest.Made.{
  made, IsMade, three_d6_check-ok, classify-returns, die-IsFace, IsMade-check_roll,
}

module _ (prims : Primitives) (source : DiceSource) (campaign timeline : String) (period : ℤ)
    (seed : Option String)
    (bounded : (c : List String) (n : ℕ) → 1 ≤ n → suc (source.randbelow c n) ≤ n)
    (falls : (c : List String) → (f : ℕ) × (die source seed c ≡ ok f)) where
  preview_check-IsMade :
      (key label : String) (target : ℤ)
      → (r : Roll) × (preview_check prims source campaign timeline period seed key label target
          ≡ ok r)
        × IsMade prims source campaign timeline period seed key label target r
  unfolding preview_check sum_faces
  preview_check-IsMade key label target =
      let at : String → List String = coordinate prims source campaign timeline period seed key in
      let (a, ea) = falls (at "1") in
      let (b, eb) = falls (at "2") in
      let (c, ec) = falls (at "3") in
      let fa = die-IsFace source bounded seed (at "1") a ea in
      let fb = die-IsFace source bounded seed (at "2") b eb in
      let fc = die-IsFace source bounded seed (at "3") c ec in
      let (o, e) =
        classify-returns (sum_faces (a ∷ b ∷ c ∷ [])) (target +ℤ sum_ℤ []) (omega arith)
          (omega arith) in
      (
        made prims source campaign timeline period seed key label target a b c o,
        rw (ea, eb, ec, three_d6_check-ok a b c target o e) refl,
        (a, b, c, o, refl, fa, fb, fc, e),
      )

  -- The hash function gives full hashes.
  module _ (digests : (bytes : List ℕ) → is_sha256 (prims.sha256 bytes) ≡ true) where
    fingerprint_lem :
        (given : Option String)
        → check_fingerprint (method_of given) (fingerprint_of prims given) ≡ ok tt
    unfolding check_fingerprint is_some_hash
    fingerprint_lem none = refl
    fingerprint_lem (some s) = rw (digests (utf8 (codes s))) refl

    method_lem :
        (given : Option String)
        → (str_eq (method_of given) seeded_method || str_eq (method_of given) random_method) ≡ true
    method_lem none = refl
    method_lem (some s) = refl

    abbrev issued : List Roll → Manifest
    issued rolls =
        let body = preview_body prims source campaign timeline period seed rolls in
        record body { manifest_hash = body_hash prims body }

    contents_lem :
        (a b : Roll)
        → IsMade prims source campaign timeline period seed "vara_administration"
            "Vara administration overview"
            (pos 16)
            a
        → IsMade prims source campaign timeline period seed "vara_merchant" "Vara merchant overview"
            (pos 15)
            b
        → check_contents (issued (a ∷ b ∷ [])) (a ∷ b ∷ []) ≡ ok tt
    unfolding check_contents check_rolls contains expected_roll
    contents_lem a b ma mb =
        let (_, _, _, _, same, _, _, _, _) = ma in
        let key = ap (λ (r : Roll). r.roll_key) same in
        let first =
          IsMade-check_roll prims source campaign timeline period seed [] _ _ _ a refl refl ma in
        let second =
          IsMade-check_roll prims source campaign timeline period seed (a.roll_key ∷ []) _ _ _ b
            (rw key refl) refl mb in
        rw (method_lem seed, fingerprint_lem seed, first, second) refl

    issued-validate :
        (rolls : List Roll)
        → check_contents (issued rolls) rolls ≡ ok tt
        → validate_roll_manifest prims (issued rolls) ≡ ok tt
    unfolding validate_roll_manifest body_hash
    issued-validate rolls h =
        let hash =
          body_hash prims (preview_body prims source campaign timeline period seed rolls) in
        rw ((eq_iff hash hash).1 refl) h

    -- For a seed that is not empty, or none, a random source that answers below the count of sides, dice
    -- that fall within their fuel, and a hash function that gives full hashes: the preview returns a
    -- manifest with the receipts of both checks, and its own check accepts it.
    pub roll_preview_checks-validate_roll_manifest :
        is_empty_seed seed ≡ false
        → (m : Manifest) × (roll_preview_checks prims source campaign timeline period seed ≡ ok m)
          × (validate_roll_manifest prims m ≡ ok tt)
          × HasRolls m m.rolls
          × (m.rolls ≢ [])
    unfolding roll_preview_checks issue
    roll_preview_checks-validate_roll_manifest given =
        let (a, ea, ma) =
          preview_check-IsMade "vara_administration" "Vara administration overview" (pos 16) in
        let (b, eb, mb) = preview_check-IsMade "vara_merchant" "Vara merchant overview" (pos 15) in
        let accepted = issued-validate (a ∷ b ∷ []) (contents_lem a b ma mb) in
        (
          issued (a ∷ b ∷ []),
          rw (given, ea, eb, accepted) refl,
          accepted,
          (validate_roll_manifest-HasRolls prims (issued (a ∷ b ∷ [])) accepted).2,
          λ h. cc h,
        )
