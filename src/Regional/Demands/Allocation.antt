-- ===== src/Regional/Demands/Allocation.antt =====
-- regional_market.py: how `_allocate_demand_receipts` divides what the kernel consumed for one need.
use baen_economy_engine.Prelude.{
  ◌≡◌, ◌⊎◌, inl, inr, sym, ap, ◌∙◌, subst, arith, true, false, String, List, [], ◌∷◌, map, ok,
  >>=-eq-ok, ok-inj, All,
}
use baen_economy_engine.Prelude.Dict.{
  Dict, contains, insert, string_eq, lookup-insert, lookup-insert_self,
}
use baen_economy_engine.Decimal.Number.{Decimal, zero_dec, is_zero, min_dec}
use baen_economy_engine.Decimal.Order.{Le, le_refl, le-min, min-le_left, min-le_right, min-cases}
use baen_economy_engine.Decimal.Context.{sub}
use baen_economy_engine.Decimal.Context.Signs.{sub-nonneg, sub_self, sub-zero, zero-above}
use baen_economy_engine.Stockflow.Books.{amount}
use baen_economy_engine.Stockflow.Verify.Facts.{IsDistinct}
use baen_economy_engine.Regional.Types.{calculated}
use baen_economy_engine.Regional.Transport.Loop.{calculated-ok}
use baen_economy_engine.Regional.Bids.{DemandBid}
use baen_economy_engine.Regional.Demands.{demand_id_of, allocate_group}

-- What is given to a demand.
abbrev pub share : Dict String Decimal → DemandBid → Decimal
share consumed d = amount d.demand_id consumed

abbrev pub IsUnserved : Dict String Decimal → DemandBid → Type 0
IsUnserved consumed d = is_zero (share consumed d) ≡ true

-- First come, first served: each gets from nothing up to what it asks for, and whoever stands behind one
-- that does not get all of it gets nothing.
abbrev pub IsFair : Dict String Decimal → List DemandBid → Type 0
IsFair consumed [] = Unit
IsFair consumed (d ∷ ds) =
    Le zero_dec (share consumed d)
    × Le (share consumed d) d.quantity
    × (Le d.quantity (share consumed d) ⊎ All (IsUnserved consumed) ds)
    × IsFair consumed ds

-- The loop leaves the demands of other needs alone.
allocate_group-others :
    (ds : List DemandBid) (remaining : Decimal) (consumed : Dict String Decimal)
    (after : Decimal × Dict String Decimal) (id : String)
    → contains id (map demand_id_of ds) ≡ false
    → allocate_group ds remaining consumed ≡ ok after
    → amount id (after.1) ≡ amount id consumed
unfolding allocate_group contains amount
allocate_group-others [] remaining consumed after id other h =
    ap (λ (p : Decimal × Dict String Decimal). amount id (p.1)) (sym (ok-inj h))
allocate_group-others (d ∷ ds) remaining consumed after id other h =
    let (left, _, h1) = >>=-eq-ok (calculated (sub remaining (min_dec d.quantity remaining))) _ h in
    allocate_group-others ds left (insert d.demand_id (min_dec d.quantity remaining) consumed) after
      id (ground arith) h1
    ∙ ground (arith, lookup-insert d.demand_id id (min_dec d.quantity remaining) consumed)

step_left :
    (d : DemandBid) (remaining left : Decimal)
    → Le zero_dec d.quantity
    → Le zero_dec remaining
    → calculated (sub remaining (min_dec d.quantity remaining)) ≡ ok left
    → Le zero_dec left
step_left d remaining left asked nonneg e =
    sub-nonneg remaining (min_dec d.quantity remaining) left
      (le-min d.quantity remaining zero_dec asked nonneg) (min-le_right d.quantity remaining)
      (calculated-ok _ e)

-- What the first demand of the loop is given.
first-share :
    (d : DemandBid) (ds : List DemandBid) (left given : Decimal) (consumed : Dict String Decimal)
    (after : Decimal × Dict String Decimal)
    → contains d.demand_id (map demand_id_of ds) ≡ false
    → allocate_group ds left (insert d.demand_id given consumed) ≡ ok after
    → given ≡ share (after.1) d
unfolding amount
first-share d ds left given consumed after fresh h = sym (
    allocate_group-others ds left (insert d.demand_id given consumed) after d.demand_id fresh h
    ∙ ground (arith, lookup-insert_self d.demand_id given consumed))

-- With nothing left, nothing is given.
nothing-left :
    (ds : List DemandBid) (remaining : Decimal) (consumed : Dict String Decimal)
    (after : Decimal × Dict String Decimal)
    → IsDistinct (map demand_id_of ds)
    → All (λ d. Le zero_dec d.quantity) ds
    → Le zero_dec remaining
    → is_zero remaining ≡ true
    → allocate_group ds remaining consumed ≡ ok after
    → All (IsUnserved (after.1)) ds
unfolding allocate_group
nothing-left [] remaining consumed after distinct asked nonneg spent h = tt
nothing-left (d ∷ ds) remaining consumed after distinct asked nonneg spent h =
    let given = min_dec d.quantity remaining in
    let (left, e, h1) = >>=-eq-ok (calculated (sub remaining given)) _ h in
    let low : Le zero_dec given = le-min d.quantity remaining zero_dec asked.0 nonneg in
    let none_given = zero-above given remaining low (min-le_right d.quantity remaining) spent in
    (
      subst (λ q. is_zero q ≡ true) (first-share d ds left given consumed after distinct.0 h1)
          none_given,
      nothing-left ds left (insert d.demand_id given consumed) after distinct.1 asked.1
          (step_left d remaining left asked.0 nonneg e)
          (sub-zero remaining given left spent none_given (calculated-ok _ e)) h1,
    )

-- What is consumed for a need is given to its demands in their order: each gets from zero up to its
-- quantity, and after one that gets less than its quantity the others get zero. What is left is zero or
-- more. This is for demands whose ids differ, with quantities of zero or more, and a consumption of zero
-- or more.
pub allocate_group-IsFair :
    (ds : List DemandBid) (remaining : Decimal) (consumed : Dict String Decimal)
    (after : Decimal × Dict String Decimal)
    → IsDistinct (map demand_id_of ds)
    → All (λ d. Le zero_dec d.quantity) ds
    → Le zero_dec remaining
    → allocate_group ds remaining consumed ≡ ok after
    → IsFair (after.1) ds × Le zero_dec (after.0)
unfolding allocate_group
allocate_group-IsFair [] remaining consumed after distinct asked nonneg h =
    (tt, subst (λ (p : Decimal × Dict String Decimal). Le zero_dec (p.0)) (ok-inj h) nonneg)
allocate_group-IsFair (d ∷ ds) remaining consumed after distinct asked nonneg h =
    let given = min_dec d.quantity remaining in
    let (left, e, h1) = >>=-eq-ok (calculated (sub remaining given)) _ h in
    let rest_nonneg = step_left d remaining left asked.0 nonneg e in
    let (fair, last) =
      allocate_group-IsFair ds left (insert d.demand_id given consumed) after distinct.1 asked.1
        rest_nonneg h1 in
    let same = first-share d ds left given consumed after distinct.0 h1 in
    let served : Le d.quantity given ⊎ All (IsUnserved (after.1)) ds =
      elim (min-cases d.quantity remaining) [
        | inl all_given ↦ inl (rw all_given (le_refl d.quantity))
        | inr rest_given ↦ inr (
            nothing-left ds left (insert d.demand_id given consumed) after distinct.1 asked.1
              rest_nonneg (sub_self remaining left (calculated-ok _ (rw rest_given at e))) h1)
      ] in
    (
      (
        subst (λ q. Le zero_dec q) same (le-min d.quantity remaining zero_dec asked.0 nonneg),
        subst (λ q. Le q d.quantity) same (min-le_left d.quantity remaining),
        subst (λ q. Le d.quantity q ⊎ All (IsUnserved (after.1)) ds) same served,
        fair,
      ),
      last,
    )
