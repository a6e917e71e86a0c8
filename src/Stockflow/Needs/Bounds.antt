-- ===== src/Stockflow/Needs/Bounds.antt =====
-- stockflow.py: what a need consumes is within the request and the free stock, and leaves the stock.
use baen_economy_engine.Prelude.{
  ◌≡◌, refl, sym, ap, ◌∙◌, arith, false, String, subst, Option, none, some, [], ◌∷◌, ◌++◌, ok,
  Bool-cases, inl, inr, >>=-eq-ok, ok-inj,
}
use baen_economy_engine.Prelude.Dict.{Dict, insert, lookup, string_eq, pair_eq}
use baen_economy_engine.Decimal.Number.{Decimal, is_zero, min_dec}
use baen_economy_engine.Decimal.Context.{add, sub}
use baen_economy_engine.Decimal.Order.{Le, min-le_left, min-le_right}
use baen_economy_engine.Stockflow.Types.{Sim, Commodity, EconomyModel, NeedResult}
use baen_economy_engine.Stockflow.Price.{price_after_need}
use baen_economy_engine.Stockflow.Books.{
  Books, StockKey, amount, credit-insert, debit-insert, credit, debit, free_stock, debit_stock,
  commodities_of,
}
use baen_economy_engine.Stockflow.Needs.{
  NeedKey, set_price, respond, add_need_result, book_consumption, consume, flow_if, price_or,
}

abbrev pub need_result : NeedKey → Decimal → Decimal → NeedResult
need_result key requested actual = record {
  site_id = key.1.0;
  commodity_id = key.1.1;
  requested_quantity = requested;
  consumed_quantity = actual;
}

-- The fields that the price and the result of a need leave alone.
abbrev SameStock : Books → Books → Type 0
SameStock b b' = (b'.inventory ≡ b.inventory) × (b'.consumed ≡ b.consumed)

set_price-results :
    (c : Commodity) (key : StockKey) (requested actual : Decimal) (b b' : Books)
    → set_price c key requested actual b ≡ ok b'
    → (b'.need_results ≡ b.need_results) × SameStock b b'
unfolding set_price
set_price-results c key requested actual b b' h =
    let (free, _, h1) = >>=-eq-ok (free_stock key b) _ h in
    let (price, _, h2) =
      >>=-eq-ok
        (price_after_need c requested actual free (price_or (lookup key b.prices) c.base_price)) _
        h1 in
    (
      ap (λ (x : Books). x.need_results) (sym (ok-inj h2)),
      (
        ap (λ (x : Books). x.inventory) (sym (ok-inj h2)),
        ap (λ (x : Books). x.consumed) (sym (ok-inj h2)),
      ),
    )

respond-results :
    (c : Option Commodity) (key : StockKey) (requested actual : Decimal) (b b' : Books)
    → respond c key requested actual b ≡ ok b'
    → (b'.need_results ≡ b.need_results) × SameStock b b'
unfolding respond
respond-results none key requested actual b b' h = cc
respond-results (some c) key requested actual b b' h = elim (Bool-cases c.market_price_enabled) [
  | inl e ↦ set_price-results c key requested actual b b' (ground arith)
  | inr e ↦
      let same : Path (Sim Books) (ok b) (ok b') = ground arith in
      (
        ap (λ (x : Books). x.need_results) (sym (ok-inj same)),
        (
          ap (λ (x : Books). x.inventory) (sym (ok-inj same)),
          ap (λ (x : Books). x.consumed) (sym (ok-inj same)),
        ),
      )
]

flow_if-results :
    (key : NeedKey) (q : Decimal) (b : Books)
    → ((flow_if key q b).need_results ≡ b.need_results) × SameStock b (flow_if key q b)
flow_if-results (p, (s, c)) q b = elim (Bool-cases (is_zero q)) [
  | inl e ↦ rw e (refl, (refl, refl))
  | inr e ↦ rw e (refl, (refl, refl))
]

-- What a booked consumption does: its result, the stock that is left, and the total consumed.
abbrev pub IsBooked : NeedKey → Decimal → Decimal → Books → Books → Type 0
IsBooked key requested q b b' =
    (b'.need_results ≡ b.need_results ++ (need_result key requested q ∷ []))
    × ((left : Decimal) × (sub (amount key.1 b.inventory) q ≡ ok left)
        × (b'.inventory ≡ insert key.1 left b.inventory))
    × ((total : Decimal) × (add (amount key.1.1 b.consumed) q ≡ ok total)
        × (b'.consumed ≡ insert key.1.1 total b.consumed))

book_consumption-IsBooked :
    (m : EconomyModel) (key : NeedKey) (requested q : Decimal) (b b' : Books)
    → book_consumption m key requested q b ≡ ok b'
    → IsBooked key requested q b b'
unfolding book_consumption
book_consumption-IsBooked m key requested q b b' h =
    let (b1, e1, h2) = >>=-eq-ok (debit_stock key.1 q b) _ h in
    let (d, taken, e2) = >>=-eq-ok (debit key.1 q b.inventory) _ e1 in
    let (totals, given, h3) = >>=-eq-ok (credit key.1.1 q b1.consumed) _ h2 in
    let same = ok-inj e2 in
    let next : Books = record b1 { consumed = totals } in
    let flows = flow_if-results key q next in
    let prices =
      respond-results (lookup key.1.1 (commodities_of m)) key.1 requested q
        (add_need_result key requested q (flow_if key q next)) b' h3 in
    let (left, sent, stock) = debit-insert key.1 q b.inventory d taken in
    let (total, summed, used) = credit-insert key.1.1 q b1.consumed totals given in
    let kept = ap (λ (x : Books). x.consumed) (sym same) in
    (
      prices.0
          ∙ ap (λ rs. rs ++ (need_result key requested q ∷ []))
              (flows.0 ∙ ap (λ (x : Books). x.need_results) (sym same)),
      (left, sent, prices.1.0 ∙ flows.1.0 ∙ ap (λ (x : Books). x.inventory) (sym same) ∙ stock),
      (
        total,
        subst (λ d. add (amount key.1.1 d) q ≡ ok total) kept summed,
        prices.1.1
            ∙ flows.1.1
            ∙ used
            ∙ ap (λ (d : Dict String Decimal). insert key.1.1 total d) kept,
      ),
    )

-- A sum of needs that is not zero and is consumed without an error: what is consumed is the lesser of
-- the request and the free stock, and so at most each of them. It is taken from the stock of this site
-- and commodity and from no other, it is added to what is consumed of the commodity and of no other,
-- and one result for the site and commodity names both quantities.
pub consume-Le :
    (m : EconomyModel) (key : NeedKey) (requested : Decimal) (b b' : Books)
    → is_zero requested ≡ false
    → consume m key requested b ≡ ok b'
    → (available : Decimal) × (q : Decimal) × (free_stock key.1 b ≡ ok available)
      × (q ≡ min_dec requested available)
      × Le q requested
      × Le q available
      × IsBooked key requested q b b'
unfolding consume
consume-Le m key requested b b' nonzero h =
    let (available, free, h1) = >>=-eq-ok (free_stock key.1 b) _ (rw nonzero at h) in
    let q : Decimal = min_dec requested available in
    (
      available,
      q,
      free,
      refl,
      min-le_left requested available,
      min-le_right requested available,
      book_consumption-IsBooked m key requested q b b' h1,
    )
