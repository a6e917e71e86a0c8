-- ===== src/Stockflow/Arrivals/Partition.antt =====
-- stockflow.py: every lot in transit either arrives in the stock of its destination or stays.
use mathlib.Core.List.{Perm, perm_middle, append_assoc, append-nil}
use mathlib.Core.List.Perm
use baen_economy_engine.Prelude.{
  ℕ, ◌≡◌, ◌≤◌, ◌<◌, true, false, arith, All, sym, List, [], ◌∷◌, ◌++◌, ok, if◌then◌else◌,
  Bool-cases, inl, inr, >>=-eq-ok, ap, ◌∙◌,
}
use baen_economy_engine.Prelude.Dict.{string_eq, pair_eq}
use baen_economy_engine.Stockflow.Types.{TransitLot}
use baen_economy_engine.Stockflow.Sorting.{sorted, sorted-Perm}
use baen_economy_engine.Stockflow.Books.{Books}
use baen_economy_engine.Stockflow.Arrivals.{compare_lot, is_due, deliver, arrive_each, arrivals}
use baen_economy_engine.Stockflow.Arrivals.Delivered.{
  arrival_ids, lot_ids, Stocked, deliver-Delivered,
}

-- A lot that arrives by the period, and one that arrives after it.
abbrev pub IsArriving : ℕ → TransitLot → Type 0
IsArriving period lot = lot.arrival_period_index ≤ period

abbrev pub IsWaiting : ℕ → TransitLot → Type 0
IsWaiting period lot = period < lot.arrival_period_index

abbrev due_lots : ℕ → List TransitLot → List TransitLot
due_lots period [] = []
due_lots period (lot ∷ lots) =
    if is_due period lot then lot ∷ due_lots period lots else due_lots period lots

abbrev later_lots : ℕ → List TransitLot → List TransitLot
later_lots period [] = []
later_lots period (lot ∷ lots) =
    if is_due period lot then later_lots period lots else lot ∷ later_lots period lots

arrive_each_lem :
    (period : ℕ) (lots : List TransitLot) (b b' : Books)
    → arrive_each period lots b ≡ ok b'
    → (b'.transit ≡ b.transit ++ later_lots period lots)
      × (arrival_ids b'.flows ≡ arrival_ids b.flows ++ lot_ids (due_lots period lots))
      × Stocked (due_lots period lots) b.inventory b'.inventory
unfolding arrive_each
arrive_each_lem period [] b b' h =
    let same : b ≡ b' = cc h in
    (
      ap (λ (x : Books). x.transit) (sym same) ∙ sym (append-nil b.transit),
      ap (λ (x : Books). arrival_ids x.flows) (sym same) ∙ sym (append-nil (arrival_ids b.flows)),
      ap (λ (x : Books). x.inventory) (sym same),
    )
arrive_each_lem period (lot ∷ lots) b b' h = elim (Bool-cases (is_due period lot)) [
  | inl e ↦
      let (b1, h1, h2) = >>=-eq-ok (deliver lot b) _ (rw e at h) in
      let first = deliver-Delivered lot b b1 h1 in
      let rest = arrive_each_lem period lots b1 b' h2 in
      rw e (
        rest.0 ∙ ap (λ ts. ts ++ later_lots period lots) first.0,
        rest.1
            ∙ ap (λ ids. ids ++ lot_ids (due_lots period lots)) first.1
            ∙ append_assoc (arrival_ids b.flows) _ _,
        (b1.inventory, first.2, rest.2),
      )
  | inr e ↦
      let rest = arrive_each_lem period lots _ b' (rw e at h) in
      rw e (rest.0 ∙ append_assoc b.transit (lot ∷ []) _, rest.1, rest.2)
]

due_later-Perm :
    (period : ℕ) (lots : List TransitLot)
    → Perm (due_lots period lots ++ later_lots period lots) lots
due_later-Perm period [] = Perm.refl []
due_later-Perm period (lot ∷ lots) = elim (Bool-cases (is_due period lot)) [
  | inl e ↦ rw e (Perm.cons lot (due_later-Perm period lots))
  | inr e ↦ rw e (
      Perm.trans (perm_middle (due_lots period lots) (later_lots period lots))
        (Perm.cons lot (due_later-Perm period lots)))
]

is_due-IsArriving :
    (period : ℕ) (lot : TransitLot) → is_due period lot ≡ true → IsArriving period lot
unfolding is_due
is_due-IsArriving period lot e = ground (arith, e)

not_due-IsWaiting :
    (period : ℕ) (lot : TransitLot) → is_due period lot ≡ false → IsWaiting period lot
unfolding is_due
not_due-IsWaiting period lot e = ground (arith, e)

due_lots-IsArriving :
    (period : ℕ) (lots : List TransitLot) → All (IsArriving period) (due_lots period lots)
due_lots-IsArriving period [] = tt
due_lots-IsArriving period (lot ∷ lots) = elim (Bool-cases (is_due period lot)) [
  | inl e ↦ rw e (is_due-IsArriving period lot e, due_lots-IsArriving period lots)
  | inr e ↦ rw e (due_lots-IsArriving period lots)
]

later_lots-IsWaiting :
    (period : ℕ) (lots : List TransitLot) → All (IsWaiting period) (later_lots period lots)
later_lots-IsWaiting period [] = tt
later_lots-IsWaiting period (lot ∷ lots) = elim (Bool-cases (is_due period lot)) [
  | inl e ↦ rw e (later_lots-IsWaiting period lots)
  | inr e ↦ rw e (not_due-IsWaiting period lot e, later_lots-IsWaiting period lots)
]

-- When the arrivals of a period succeed, the lots that were given fall into two lists, each lot as often
-- as it was given: those that arrive by the period and those that arrive after it. The new arrival flows
-- name the first, in their order; the stock grows at each one's destination by its quantity less what
-- is lost, one after the other, and nowhere else; and the second are added to the lots in transit.
pub arrivals-Perm :
    (period : ℕ) (lots : List TransitLot) (b b' : Books)
    → arrivals period lots b ≡ ok b'
    → (due : List TransitLot) × (later : List TransitLot) × Perm (due ++ later) lots
      × All (IsArriving period) due
      × All (IsWaiting period) later
      × (arrival_ids b'.flows ≡ arrival_ids b.flows ++ lot_ids due)
      × (b'.transit ≡ b.transit ++ later)
      × Stocked due b.inventory b'.inventory
unfolding arrivals
arrivals-Perm period lots b b' h =
    let each = arrive_each_lem period (sorted compare_lot lots) b b' h in
    (
      due_lots period (sorted compare_lot lots),
      later_lots period (sorted compare_lot lots),
      Perm.trans (due_later-Perm period _) (sorted-Perm compare_lot lots),
      due_lots-IsArriving period (sorted compare_lot lots),
      later_lots-IsWaiting period (sorted compare_lot lots),
      each.1,
      each.0,
      each.2,
    )
