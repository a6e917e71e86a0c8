-- ===== src/Stockflow/Arrivals/Delivered.antt =====
-- stockflow.py: what the delivery of one lot does to the flows and to the stock of its destination.
use mathlib.Core.List.{append-nil}
use baen_economy_engine.Prelude.{
  ℕ, ◌≡◌, refl, sym, List, [], ◌∷◌, ◌++◌, ok, Bool-cases, inl, inr, >>=-eq-ok, ok-inj, ap, ◌∙◌,
}
use baen_economy_engine.Prelude.Dict.{Dict, insert, string_eq, pair_eq}
use baen_economy_engine.Prelude.Text.{codes}
use baen_economy_engine.Decimal.Number.{Decimal, is_zero}
use baen_economy_engine.Decimal.Context.{add, mul, sub}
use baen_economy_engine.Stockflow.Types.{
  calc, FlowKind, arrival, route_loss, recipe_input, production, dispatch, consumption,
  MaterialFlow, TransitLot,
}
use baen_economy_engine.Stockflow.Books.{
  Books, StockKey, amount, credit, credit_stock, calc-ok, credit-insert,
}
use baen_economy_engine.Stockflow.Arrivals.{book_loss, deliver}

abbrev arrival_of : FlowKind → List ℕ → List (List ℕ) → List (List ℕ)
arrival_of arrival id rest = id ∷ rest
arrival_of route_loss id rest = rest
arrival_of recipe_input id rest = rest
arrival_of production id rest = rest
arrival_of dispatch id rest = rest
arrival_of consumption id rest = rest

-- The shipments that the arrival flows name.
abbrev pub arrival_ids : List MaterialFlow → List (List ℕ)
arrival_ids [] = []
arrival_ids (f ∷ fs) = arrival_of f.kind f.reference_id (arrival_ids fs)

abbrev pub lot_ids : List TransitLot → List (List ℕ)
lot_ids [] = []
lot_ids (lot ∷ lots) = codes lot.shipment_id ∷ lot_ids lots

arrival_of-append :
    (k : FlowKind) (id : List ℕ) (xs ys : List (List ℕ))
    → arrival_of k id (xs ++ ys) ≡ arrival_of k id xs ++ ys
arrival_of-append arrival id xs ys = refl
arrival_of-append route_loss id xs ys = refl
arrival_of-append recipe_input id xs ys = refl
arrival_of-append production id xs ys = refl
arrival_of-append dispatch id xs ys = refl
arrival_of-append consumption id xs ys = refl

arrival_ids-append :
    (fs gs : List MaterialFlow) → arrival_ids (fs ++ gs) ≡ arrival_ids fs ++ arrival_ids gs
arrival_ids-append [] gs = refl
arrival_ids-append (f ∷ fs) gs =
    ap (arrival_of f.kind f.reference_id) (arrival_ids-append fs gs)
    ∙ arrival_of-append f.kind f.reference_id (arrival_ids fs) (arrival_ids gs)

-- The stock at a lot's destination grows by its quantity less the share that is lost; no other stock
-- changes.
abbrev pub IsStocked : TransitLot → Dict StockKey Decimal → Dict StockKey Decimal → Type 0
IsStocked lot stock stock' =
    (lost : Decimal) × (arrived : Decimal) × (total : Decimal) × (mul lot.quantity lot.loss_rate
      ≡ ok lost)
    × (sub lot.quantity lost ≡ ok arrived)
    × (add (amount (lot.destination_site_id, lot.commodity_id) stock) arrived ≡ ok total)
    × (stock' ≡ insert (lot.destination_site_id, lot.commodity_id) total stock)

-- One lot after the other is stocked.
abbrev pub Stocked : List TransitLot → Dict StockKey Decimal → Dict StockKey Decimal → Type 0
Stocked [] stock stock' = stock' ≡ stock
Stocked (lot ∷ lots) stock stock' =
    (next : Dict StockKey Decimal) × IsStocked lot stock next × Stocked lots next stock'

-- What a delivery does to the lots in transit, to the arrivals and to the stock.
abbrev pub Delivered : TransitLot → Books → Books → Type 0
Delivered lot b b' =
    (b'.transit ≡ b.transit)
    × (arrival_ids b'.flows ≡ arrival_ids b.flows ++ (codes lot.shipment_id ∷ []))
    × IsStocked lot b.inventory b'.inventory

abbrev flow_of : FlowKind → TransitLot → Decimal → MaterialFlow
flow_of k lot q = record {
  kind = k;
  site_id = lot.destination_site_id;
  commodity_id = lot.commodity_id;
  quantity = q;
  reference_id = codes lot.shipment_id;
}

book_loss-flows :
    (lot : TransitLot) (lost : Decimal) (b b' : Books)
    → book_loss lot lost b ≡ ok b'
    → (b'.transit ≡ b.transit)
      × (arrival_ids b'.flows ≡ arrival_ids b.flows)
      × (b'.inventory ≡ b.inventory)
unfolding book_loss
book_loss-flows lot lost b b' h = elim (Bool-cases (is_zero lost)) [
  | inl e ↦
      let same : b ≡ b' = cc (rw e at h) in
      (
        ap (λ (x : Books). x.transit) (sym same),
        ap (λ (x : Books). arrival_ids x.flows) (sym same),
        ap (λ (x : Books). x.inventory) (sym same),
      )
  | inr e ↦
      let (losses, _, k) = >>=-eq-ok (credit lot.commodity_id lost b.losses) _ (rw e at h) in
      let same = ok-inj k in
      (
        ap (λ (x : Books). x.transit) (sym same),
        ap (λ (x : Books). arrival_ids x.flows) (sym same)
            ∙ arrival_ids-append b.flows (flow_of route_loss lot lost ∷ [])
            ∙ append-nil (arrival_ids b.flows),
        ap (λ (x : Books). x.inventory) (sym same),
      )
]

pub deliver-Delivered :
    (lot : TransitLot) (b b' : Books) → deliver lot b ≡ ok b' → Delivered lot b b'
unfolding deliver
deliver-Delivered lot b b' h =
    let (lost, e, h1) = >>=-eq-ok (calc (mul lot.quantity lot.loss_rate)) _ h in
    let (delivered, e0, h2) = >>=-eq-ok (calc (sub lot.quantity lost)) _ h1 in
    let (b1, e1, h3) = >>=-eq-ok (credit_stock _ delivered b) _ h2 in
    let (d, credited, e2) =
      >>=-eq-ok (credit (lot.destination_site_id, lot.commodity_id) delivered b.inventory) _ e1 in
    let (total, summed, stock) =
      credit-insert (lot.destination_site_id, lot.commodity_id) delivered b.inventory d credited in
    let same = ok-inj e2 in
    let rest = book_loss-flows lot lost _ b' h3 in
    (
      rest.0 ∙ ap (λ (x : Books). x.transit) (sym same),
      rest.1
          ∙ arrival_ids-append b1.flows (flow_of arrival lot delivered ∷ [])
          ∙ ap (λ (x : Books). arrival_ids x.flows ++ (codes lot.shipment_id ∷ [])) (sym same),
      (
        lost,
        delivered,
        total,
        calc-ok _ e,
        calc-ok _ e0,
        summed,
        rest.2 ∙ ap (λ (x : Books). x.inventory) (sym same) ∙ stock,
      ),
    )
