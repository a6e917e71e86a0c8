-- ===== src/Stockflow/Sorting.antt =====
-- Python's `sorted`, and the order of the tuples that stockflow.py sorts by: compared component by
-- component, the first that differs decides.
use Prim.Native.Nat.{Ordering}
use mathlib.Core.List.{Perm}
use mathlib.Core.List.Perm
use baen_economy_engine.Prelude.{
  inl, inr, Bool, true, false, Option, none, some, String, List, [], ◌∷◌, if◌then◌else◌, Bool-cases,
  All,
}
use baen_economy_engine.Prelude.Int.{ℤ, ltb_ℤ}
use baen_economy_engine.Decimal.Number.{Decimal, lt_dec, eq_dec}

infixr 20 ◌then_by◌
abbrev pub ◌then_by◌ : Ordering → Ordering → Ordering
Ordering.lt then_by o = Ordering.lt
Ordering.eq then_by o = o
Ordering.gt then_by o = Ordering.gt

abbrev pub compare_dec : Decimal → Decimal → Ordering
compare_dec a b =
    if eq_dec a b then Ordering.eq else if lt_dec a b then Ordering.lt else Ordering.gt

abbrev pub compare_int : ℤ → ℤ → Ordering
compare_int a b = if ltb_ℤ a b then Ordering.lt else if ltb_ℤ b a then Ordering.gt else Ordering.eq

-- `event_id or ""`
abbrev pub text_or_empty : Option String → String
text_or_empty none = ""
text_or_empty (some s) = s

abbrev is_gt : Ordering → Bool
is_gt Ordering.lt = false
is_gt Ordering.eq = false
is_gt Ordering.gt = true

module _ {ℓ} {A : Type ℓ} (cmp : A → A → Ordering) where
  -- The item goes in front of the first that is not before it; equal items keep their order.
  insert_sorted : A → List A → List A
  insert_sorted x [] = x ∷ []
  insert_sorted x (y ∷ ys) =
      let rest = insert_sorted x ys in if is_gt (cmp x y) then y ∷ rest else x ∷ y ∷ ys

  unfoldable pub sorted : List A → List A
  unfolding insert_sorted
  sorted [] = []
  sorted (x ∷ xs) = insert_sorted x (sorted xs)

module _ {ℓ} {A : Type ℓ} (cmp : A → A → Ordering) where
  insert_sorted-Perm : (x : A) (xs : List A) → Perm (insert_sorted cmp x xs) (x ∷ xs)
  unfolding insert_sorted
  insert_sorted-Perm x [] = Perm.refl _
  insert_sorted-Perm x (y ∷ ys) = elim (Bool-cases (is_gt (cmp x y))) [
    | inl e ↦ rw e (Perm.trans (Perm.cons y (insert_sorted-Perm x ys)) (Perm.swap x y ys))
    | inr e ↦ rw e (Perm.refl _)
  ]

  -- Sorting loses nothing and adds nothing.
  pub sorted-Perm : (xs : List A) → Perm (sorted cmp xs) xs
  unfolding sorted
  sorted-Perm [] = Perm.refl _
  sorted-Perm (x ∷ xs) =
      Perm.trans (insert_sorted-Perm x (sorted cmp xs)) (Perm.cons x (sorted-Perm xs))

module _ {ℓ κ} {A : Type ℓ} (cmp : A → A → Ordering) (P : A → Type κ) where
  insert_sorted-All : (x : A) (xs : List A) → P x → All P xs → All P (insert_sorted cmp x xs)
  unfolding insert_sorted
  insert_sorted-All x [] p ps = (p, tt)
  insert_sorted-All x (y ∷ ys) p ps = elim (Bool-cases (is_gt (cmp x y))) [
    | inl e ↦ rw e (ps.0, insert_sorted-All x ys p ps.1)
    | inr e ↦ rw e (p, ps)
  ]

  -- What holds of every item holds of every item in order.
  pub sorted-All : (xs : List A) → All P xs → All P (sorted cmp xs)
  unfolding sorted
  sorted-All [] ps = tt
  sorted-All (x ∷ xs) ps = insert_sorted-All x (sorted cmp xs) ps.0 (sorted-All xs ps.1)

  insert_sorted-All_back : (x : A) (xs : List A) → All P (insert_sorted cmp x xs) → P x × All P xs
  unfolding insert_sorted
  insert_sorted-All_back x [] ps = ps
  insert_sorted-All_back x (y ∷ ys) ps = elim (Bool-cases (is_gt (cmp x y))) [
    | inl e ↦
        let (first, rest) = rw e at ps in
        let (p, others) = insert_sorted-All_back x ys rest in (p, (first, others))
    | inr e ↦ rw e at ps
  ]

  -- What holds of every item in order holds of every item.
  pub sorted-All_back : (xs : List A) → All P (sorted cmp xs) → All P xs
  unfolding sorted
  sorted-All_back [] ps = tt
  sorted-All_back (x ∷ xs) ps =
      let (p, rest) = insert_sorted-All_back x (sorted cmp xs) ps in (p, sorted-All_back xs rest)
