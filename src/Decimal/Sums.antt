-- ===== src/Decimal/Sums.antt =====
-- The sum of the quantities that stand under one key of a list, in the engine's arithmetic and in the
-- order of the list.
use baen_economy_engine.Prelude.{
  ◌≡◌, subst, Bool, true, false, List, [], ◌∷◌, ◌++◌, ok, Bool-cases, inl, inr,
}
use baen_economy_engine.Prelude.Dict.{Eq}
use baen_economy_engine.Decimal.Number.{Decimal}
use baen_economy_engine.Decimal.Context.{add}

abbrev pub AddsIf : Bool → Decimal → Decimal → (Decimal → Type 0) → Type 0
AddsIf true q start After = (next : Decimal) × (add start q ≡ ok next) × After next
AddsIf false q start After = After start

module _ {K : Type 0} ⦃e : Eq K⦄ where
  -- The quantities under the key, added one after the other to `start`, come to `total`.
  abbrev pub Summed : K → List (K × Decimal) → Decimal → Decimal → Type 0
  Summed key [] start total = total ≡ start
  Summed key ((k, q) ∷ held) start total =
      AddsIf (e.beq k key) q start (λ next. Summed key held next total)

  pub Summed-append :
      (key : K) (xs ys : List (K × Decimal)) (start middle total : Decimal)
      → Summed key xs start middle
      → Summed key ys middle total
      → Summed key (xs ++ ys) start total
  Summed-append key [] ys start middle total first second =
      subst (λ d. Summed key ys d total) first second
  Summed-append key ((k, q) ∷ xs) ys start middle total first second =
      elim (Bool-cases (e.beq k key)) [
        | inl same ↦
            let (next, added, rest) = rw same at first in
            rw same (next, added, Summed-append key xs ys next middle total rest second)
        | inr other ↦
            rw other (Summed-append key xs ys start middle total (rw other at first) second)
      ]
