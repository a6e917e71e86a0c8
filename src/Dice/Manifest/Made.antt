-- ===== src/Dice/Manifest/Made.antt =====
-- operator_dice.py: the roll that `_three_d6_check` makes passes the checks of a roll.
use baen_economy_engine.Prelude.{
  ℕ, suc, ◌≤◌, ◌≡◌, ◌≢◌, ◌⊎◌, inl, inr, refl, sym, ap, subst, arith, true, false, Option, none,
  some, String, List, [], ◌∷◌, ==_iff, eq_iff, ok, err, >>=-eq-ok, ok-inj, Result,
}
use baen_economy_engine.Prelude.Int.{ℤ, pos, ◌-ℤ◌, ◌+ℤ◌, eqb_ℤ_iff, sum_ℤ}
use baen_economy_engine.Prelude.Dict.{contains, string_eq}
use baen_economy_engine.Events.Types.{Primitives}
use baen_economy_engine.Dice.Classify.{DiceError, Outcome, classify_3d6, sum_faces}
use baen_economy_engine.Dice.Manifest.{by_dice, Roll, outcome_text}
use baen_economy_engine.Dice.Manifest.Checks.{
  expected_roll, same_text, check_target, check_derived, check_roll,
}
use baen_economy_engine.Dice.Classify.{Check, three_d6_check}
use baen_economy_engine.Dice.Sampling.{seeded_die, sample_at, draw_range}
use baen_economy_engine.Dice.Manifest.Preview.{
  DiceSource, face_of, die, method_of, fingerprint_of, roll_of,
}
use baen_economy_engine.Dice.Manifest.Receipt.{IsFace, by_dice-ok}

result_cases {ℓ κ} :
    {E : Type ℓ} {A : Type κ} (r : Result E A) → ((a : A) × (r ≡ ok a)) ⊎ ((e : E) × (r ≡ err e))
result_cases (ok a) = inl (a, refl)
result_cases (err e) = inr (e, refl)

-- Three dice are always classified.
no_error : (t : ℕ) (target : ℤ) (e : DiceError) → 3 ≤ t → t ≤ 18 → classify_3d6 t target ≢ err e
unfolding classify_3d6
no_error t target e lo hi h = ground (arith, h)

pub classify-returns :
    (t : ℕ) (target : ℤ) → 3 ≤ t → t ≤ 18 → (o : Outcome) × (classify_3d6 t target ≡ ok o)
classify-returns t target lo hi = elim (result_cases (classify_3d6 t target)) [
  | inl found ↦ found
  | inr (e, failed) ↦ absurd (no_error t target e lo hi failed)
]

abbrev pub check_of : ℕ → ℕ → ℕ → ℤ → Outcome → Check
check_of a b c target o = record {
  dice = a ∷ b ∷ c ∷ [];
  total = sum_faces (a ∷ b ∷ c ∷ []);
  base_target = target;
  modifiers = [];
  modifier_total = sum_ℤ [];
  effective_target = target +ℤ sum_ℤ [];
  margin = (target +ℤ sum_ℤ []) -ℤ pos (sum_faces (a ∷ b ∷ c ∷ []));
  outcome = o;
}

pub three_d6_check-ok :
    (a b c : ℕ) (target : ℤ) (o : Outcome)
    → classify_3d6 (sum_faces (a ∷ b ∷ c ∷ [])) (target +ℤ sum_ℤ []) ≡ ok o
    → three_d6_check a b c target [] ≡ ok (check_of a b c target o)
unfolding three_d6_check
three_d6_check-ok a b c target o e = ground (arith, e)

face_of-some : (o : Option ℕ) (f : ℕ) → face_of o ≡ ok f → o ≡ some f
unfolding face_of
face_of-some none f h = cc
face_of-some (some g) f h = ap some (ok-inj h)

pub die-IsFace :
    (source : DiceSource)
    → ((c : List String) (n : ℕ) → 1 ≤ n → suc (source.randbelow c n) ≤ n)
    → (seed : Option String) (c : List String) (f : ℕ) → die source seed c ≡ ok f
    → IsFace f
unfolding die face_of seeded_die
die-IsFace source bounded none c f h = ground (arith, bounded c 6, h)
die-IsFace source bounded (some seed) c f h =
    let (drawn, e, h1) =
      >>=-eq-ok (by_dice (seeded_die source.keyed source.fuel 6 seed c)) face_of h in
    let (lo, hi) =
      draw_range (sample_at source.keyed seed c) 6 source.fuel 0 f (omega arith)
        (face_of-some _ f (subst (λ o. face_of o ≡ ok f) (sym (ok-inj (by_dice-ok _ e))) h1)) in
    (lo, hi)

module _ (prims : Primitives) (source : DiceSource) (campaign timeline : String) (period : ℤ)
    (seed : Option String) where
  abbrev pub made : String → String → ℤ → ℕ → ℕ → ℕ → Outcome → Roll
  made key label target a b c o =
      roll_of prims source campaign timeline period seed key label (check_of a b c target o)

  check_target-made :
      (key label : String) (target : ℤ) (a b c : ℕ) (o : Outcome)
      → check_target (made key label target a b c o) (some (label, target)) ≡ ok target
  unfolding check_target
  check_target-made key label target a b c o =
      rw ((eq_iff label label).1 refl, (eqb_ℤ_iff target target).1 refl) refl

  check_derived-made :
      (key label : String) (target : ℤ) (a b c : ℕ) (o : Outcome)
      → classify_3d6 (sum_faces (a ∷ b ∷ c ∷ [])) (target +ℤ sum_ℤ []) ≡ ok o
      → check_derived (made key label target a b c o) target ≡ ok tt
  unfolding check_derived
  check_derived-made key label target a b c o e =
      let effective = target +ℤ sum_ℤ [] in
      let total = sum_faces (a ∷ b ∷ c ∷ []) in
      ground (
        arith,
        e,
        (==_iff total total).1 refl,
        (eqb_ℤ_iff (sum_ℤ []) (sum_ℤ [])).1 refl,
        (eqb_ℤ_iff effective effective).1 refl,
        (eqb_ℤ_iff (effective -ℤ pos total) (effective -ℤ pos total)).1 refl,
        (eq_iff (outcome_text o) (outcome_text o)).1 refl,
      )

  same_text_refl : (t : Option String) → same_text t t ≡ true
  unfolding same_text
  same_text_refl none = refl
  same_text_refl (some s) = (eq_iff s s).1 refl

  check_roll-made :
      (seen : List String) (key label : String) (target : ℤ) (a b c : ℕ) (o : Outcome)
      → contains key seen ≡ false
      → expected_roll key ≡ some (label, target)
      → IsFace a
      → IsFace b
      → IsFace c
      → classify_3d6 (sum_faces (a ∷ b ∷ c ∷ [])) (target +ℤ sum_ℤ []) ≡ ok o
      → check_roll (method_of seed) (fingerprint_of prims seed) seen (made key label target a b c o)
        ≡ ok tt
  unfolding check_roll
  check_roll-made seen key label target a b c o new expected fa fb fc e =
      rw (new, expected, check_target-made key label target a b c o)
        (ground (
          arith,
          fa,
          fb,
          fc,
          check_derived-made key label target a b c o e,
          same_text_refl (fingerprint_of prims seed),
          (eq_iff (method_of seed) (method_of seed)).1 refl,
        ))

  -- What one check makes, for dice that fall.
  abbrev pub IsMade : String → String → ℤ → Roll → Type 0
  IsMade key label target r =
      (a : ℕ) × (b : ℕ) × (c : ℕ) × (o : Outcome) × (r ≡ made key label target a b c o)
      × IsFace a
      × IsFace b
      × IsFace c
      × (classify_3d6 (sum_faces (a ∷ b ∷ c ∷ [])) (target +ℤ sum_ℤ []) ≡ ok o)

  pub IsMade-check_roll :
      (seen : List String) (key label : String) (target : ℤ) (r : Roll)
      → contains key seen ≡ false
      → expected_roll key ≡ some (label, target)
      → IsMade key label target r
      → check_roll (method_of seed) (fingerprint_of prims seed) seen r ≡ ok tt
  IsMade-check_roll seen key label target r new expected (a, b, c, o, same, fa, fb, fc, e) =
      subst (λ x. check_roll (method_of seed) (fingerprint_of prims seed) seen x ≡ ok tt) (sym same)
        (check_roll-made seen key label target a b c o new expected fa fb fc e)
