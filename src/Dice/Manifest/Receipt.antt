-- ===== src/Dice/Manifest/Receipt.antt =====
-- operator_dice.py: what a roll that `validate_roll_manifest` accepts is like.
use baen_economy_engine.Prelude.{
  ℕ, ◌≤◌, ◌≡◌, ◌≢◌, ◌⊎◌, inl, inr, refl, sym, ap, ◌∙◌, arith, true, false, ◌||◌, not, Option, none,
  some, String, List, [], ◌∷◌, map, length, all, any, ◌==◌, ==_iff, str_eq, eq_iff, ok, err,
  >>=-eq-ok, raise_if-ok, raise_if-passed, ok-inj, Bool-cases, Result,
}
use baen_economy_engine.Prelude.Int.{ℤ, pos, ◌-ℤ◌, ◌+ℤ◌, eqb_ℤ, eqb_ℤ_iff, sum_ℤ}
use baen_economy_engine.Prelude.Dict.{contains, string_eq}
use baen_economy_engine.Prelude.Text.{has_text}
use baen_economy_engine.Dice.Classify.{DiceError, Outcome, classify_3d6, sum_faces}
use baen_economy_engine.Dice.Manifest.{
  bad_key, bad_target, bad_dice, bad_modifier, bad_derived, bad_method, by_dice, Modifier, Roll,
  target_source, outcome_text,
}
use baen_economy_engine.Dice.Manifest.Checks.{
  expected_roll, same_text, check_target, is_face, value_of_modifier, check_derived, check_roll,
}

same_text-eq : (a b : Option String) → same_text a b ≡ true → a ≡ b
unfolding same_text
same_text-eq none none h = refl
same_text-eq none (some t) h = cc
same_text-eq (some s) none h = cc
same_text-eq (some s) (some t) h = ap some ((eq_iff s t).0 h)

pub by_dice-ok {ℓ} : {A : Type ℓ} (r : Result DiceError A) {a : A} → by_dice r ≡ ok a → r ≡ ok a
by_dice-ok (ok a) h = cc
by_dice-ok (err e) h = cc

-- The check that a roll is of, with its label and target.
abbrev pub IsOf : Roll → ℤ → Type 0
IsOf r target =
    ((r.roll_key ≡ "vara_administration")
      × (r.label ≡ "Vara administration overview")
      × (target ≡ pos 16))
    ⊎ ((r.roll_key ≡ "vara_merchant") × (r.label ≡ "Vara merchant overview") × (target ≡ pos 15))

abbrev pub IsFace : ℕ → Type 0
IsFace f = (1 ≤ f) × (f ≤ 6)

abbrev pub modifiers_of : Roll → ℤ
modifiers_of r = sum_ℤ (map value_of_modifier r.modifiers)

-- Every derived field is what the three faces and the modifiers make of the check's target.
pub record IsReceipt (method : String) (fingerprint : Option String) (r : Roll) : Type 0 where
  pub target : ℤ
  pub is_of : IsOf r target
  pub base_target : r.base_target ≡ target
  pub faces :
      (a : ℕ) × (b : ℕ) × (c : ℕ) × (r.dice ≡ a ∷ b ∷ c ∷ []) × IsFace a × IsFace b × IsFace c
  pub total : r.total ≡ sum_faces r.dice
  pub modifier_total : r.modifier_total ≡ modifiers_of r
  pub effective_target : r.effective_target ≡ target +ℤ modifiers_of r
  pub margin : r.margin ≡ (target +ℤ modifiers_of r) -ℤ pos (sum_faces r.dice)
  pub outcome :
      (o : Outcome) × (classify_3d6 (sum_faces r.dice) (target +ℤ modifiers_of r) ≡ ok o)
      × (r.outcome ≡ outcome_text o)
  pub same_method : r.method ≡ method
  pub same_fingerprint : r.seed_fingerprint ≡ fingerprint

three_faces :
    (fs : List ℕ)
    → (length fs == 3) ≡ true
    → all is_face fs ≡ true
    → (a : ℕ) × (b : ℕ) × (c : ℕ) × (fs ≡ a ∷ b ∷ c ∷ []) × IsFace a × IsFace b × IsFace c
three_faces (a ∷ b ∷ c ∷ []) n h =
    (a, b, c, refl, ground (arith, h), ground (arith, h), ground (arith, h))
three_faces [] n h = absurd (ground arith)
three_faces (a ∷ []) n h = absurd (ground arith)
three_faces (a ∷ b ∷ []) n h = absurd (ground arith)
three_faces (a ∷ b ∷ c ∷ d ∷ fs) n h = absurd (ground arith)

check_target-some :
    (r : Roll) (label : String) (target found : ℤ)
    → check_target r (some (label, target)) ≡ ok found
    → (r.label ≡ label) × (r.base_target ≡ target) × (target ≡ found)
unfolding check_target
check_target-some r label target found h =
    let (same, h1) =
      raise_if-ok
        (not (str_eq r.label label)
          || (not (eqb_ℤ r.base_target target) || not (str_eq r.target_authority target_source)))
        bad_target _ h in
    (
      (eq_iff r.label label).0 (ground (arith, same)),
      (eqb_ℤ_iff r.base_target target).0 (ground (arith, same)),
      ok-inj h1,
    )

check_target-none : (r : Roll) (target : ℤ) → check_target r none ≢ ok target
unfolding check_target
check_target-none r target h = cc

check_target-IsOf :
    (r : Roll) (target : ℤ)
    → check_target r (expected_roll r.roll_key) ≡ ok target
    → IsOf r target × (r.base_target ≡ target)
unfolding expected_roll
check_target-IsOf r target h = elim (Bool-cases (str_eq r.roll_key "vara_administration")) [
  | inl first ↦
      let h1 : check_target r (some ("Vara administration overview", pos 16)) ≡ ok target =
        rw first at h in
      let (label, base, same) =
        check_target-some r "Vara administration overview" (pos 16) target h1 in
      (inl ((eq_iff r.roll_key "vara_administration").0 first, label, sym same), base ∙ same)
  | inr other ↦ elim (Bool-cases (str_eq r.roll_key "vara_merchant")) [
    | inl second ↦
        let h1 : check_target r (some ("Vara merchant overview", pos 15)) ≡ ok target =
          rw (other, second) at h in
        let (label, base, same) = check_target-some r "Vara merchant overview" (pos 15) target h1 in
        (inr ((eq_iff r.roll_key "vara_merchant").0 second, label, sym same), base ∙ same)
    | inr unknown ↦
        let h1 : check_target r none ≡ ok target = rw (other, unknown) at h in
        absurd (check_target-none r target h1)
  ]
]

check_derived-eq :
    (r : Roll) (target : ℤ)
    → check_derived r target ≡ ok tt
    → (r.total ≡ sum_faces r.dice)
      × (r.modifier_total ≡ modifiers_of r)
      × (r.effective_target ≡ target +ℤ modifiers_of r)
      × (r.margin ≡ (target +ℤ modifiers_of r) -ℤ pos (sum_faces r.dice))
      × ((o : Outcome) × (classify_3d6 (sum_faces r.dice) (target +ℤ modifiers_of r) ≡ ok o)
          × (r.outcome ≡ outcome_text o))
unfolding check_derived
check_derived-eq r target h =
    let effective = target +ℤ modifiers_of r in
    let (o, e, h1) = >>=-eq-ok (by_dice (classify_3d6 (sum_faces r.dice) effective)) _ h in
    let same = raise_if-passed _ bad_derived h1 in
    (
      (==_iff r.total (sum_faces r.dice)).0 (ground (arith, same)),
      (eqb_ℤ_iff r.modifier_total (modifiers_of r)).0 (ground (arith, same)),
      (eqb_ℤ_iff r.effective_target effective).0 (ground (arith, same)),
      (eqb_ℤ_iff r.margin (effective -ℤ pos (sum_faces r.dice))).0 (ground (arith, same)),
      (o, by_dice-ok _ e, (eq_iff r.outcome (outcome_text o)).0 (ground (arith, same))),
    )

pub check_roll-IsReceipt :
    (method : String) (fingerprint : Option String) (seen : List String) (r : Roll)
    → check_roll method fingerprint seen r ≡ ok tt
    → (contains r.roll_key seen ≡ false) × IsReceipt method fingerprint r
unfolding check_roll
check_roll-IsReceipt method fingerprint seen r h =
    let (new, h1) = raise_if-ok (contains r.roll_key seen) bad_key _ h in
    let (target, e, h2) = >>=-eq-ok (check_target r (expected_roll r.roll_key)) _ h1 in
    let (is_of, base) = check_target-IsOf r target e in
    let (dice, h3) =
      raise_if-ok (not (length r.dice == 3) || not (all is_face r.dice)) bad_dice _ h2 in
    let (_, h4) =
      raise_if-ok (any (λ (m : Modifier). not (has_text m.label)) r.modifiers) bad_modifier _ h3 in
    let (_, derived, h5) = >>=-eq-ok (check_derived r target) _ h4 in
    let (total, modifier_total, effective, margin, outcome) = check_derived-eq r target derived in
    let last = raise_if-passed _ bad_method h5 in
    (
      new,
      record {
        target = target;
        is_of = is_of;
        base_target = base;
        faces = three_faces r.dice (ground (arith, dice)) (ground (arith, dice));
        total = total;
        modifier_total = modifier_total;
        effective_target = effective;
        margin = margin;
        outcome = outcome;
        same_method = (eq_iff r.method method).0 (ground (arith, last));
        same_fingerprint = same_text-eq r.seed_fingerprint fingerprint (ground (arith, last));
      },
    )
