-- ===== src/Stockflow/Closing/Totals.antt =====
-- stockflow.py: `_commodity_totals` as sums over what is held, and the commodities that the
-- conservation check of `_advance` goes through: every one that stands in one of its totals.
use baen_economy_engine.Prelude.{
  ◌≡◌, refl, subst, arith, true, false, none, String, List, [], ◌∷◌, ◌++◌, str_eq, ok, >>=-eq-ok,
  ok-inj, Bool-cases, inl, inr, All, eq_iff,
}
use baen_economy_engine.Prelude.Dict.{Dict, contains, lookup, string_eq, lookup-insert}
use baen_economy_engine.Decimal.Number.{Decimal, zero_dec}
use baen_economy_engine.Decimal.Context.{add}
use baen_economy_engine.Decimal.Sums.{AddsIf, Summed, Summed-append}
use baen_economy_engine.Stockflow.Types.{InventoryPosition, TransitLot}
use baen_economy_engine.Stockflow.Sorting.{sorted-All_back}
use baen_economy_engine.Stockflow.Books.{Books, amount, credit, credit-insert}
use baen_economy_engine.Stockflow.Closing.{
  total_positions, total_lots, commodity_totals, unite, commodity_ids,
}

abbrev pub stock_amounts : List InventoryPosition → List (String × Decimal)
stock_amounts [] = []
stock_amounts (p ∷ ps) = (p.commodity_id, p.quantity) ∷ stock_amounts ps

abbrev pub lot_amounts : List TransitLot → List (String × Decimal)
lot_amounts [] = []
lot_amounts (lot ∷ lots) = (lot.commodity_id, lot.quantity) ∷ lot_amounts lots

-- What stands in stock and what is under way.
abbrev pub holdings : List InventoryPosition → List TransitLot → List (String × Decimal)
holdings ps lots = stock_amounts ps ++ lot_amounts lots

credit-AddsIf :
    (c id : String) (q : Decimal) (d d' : Dict String Decimal) (After : Decimal → Type 0)
    → credit c q d ≡ ok d'
    → After (amount id d')
    → AddsIf (str_eq c id) q (amount id d) After
unfolding amount
credit-AddsIf c id q d d' After h after =
    let (total, added, same) = credit-insert c q d d' h in
    let after' = subst (λ (x : Dict String Decimal). After (amount id x)) same after in
    elim (Bool-cases (str_eq c id)) [
      | inl e ↦ rw e (
        total,
        subst (λ k. add (amount k d) q ≡ ok total) ((eq_iff c id).0 e) added,
        rw (lookup-insert c id total d, e) at after',
      )
      | inr e ↦ rw e (rw (lookup-insert c id total d, e) at after')
    ]

module _ (id : String) where
  total_positions-Summed :
      (ps : List InventoryPosition) (d d' : Dict String Decimal)
      → total_positions ps d ≡ ok d'
      → Summed id (stock_amounts ps) (amount id d) (amount id d')
  unfolding total_positions
  total_positions-Summed [] d d' h =
      subst (λ (x : Dict String Decimal). amount id x ≡ amount id d) (ok-inj h) refl
  total_positions-Summed (p ∷ ps) d d' h =
      let (d1, e, h1) = >>=-eq-ok (credit p.commodity_id p.quantity d) _ h in
      credit-AddsIf p.commodity_id id p.quantity d d1
        (λ next. Summed id (stock_amounts ps) next (amount id d')) e
        (total_positions-Summed ps d1 d' h1)

  total_lots-Summed :
      (lots : List TransitLot) (d d' : Dict String Decimal)
      → total_lots lots d ≡ ok d'
      → Summed id (lot_amounts lots) (amount id d) (amount id d')
  unfolding total_lots
  total_lots-Summed [] d d' h =
      subst (λ (x : Dict String Decimal). amount id x ≡ amount id d) (ok-inj h) refl
  total_lots-Summed (lot ∷ lots) d d' h =
      let (d1, e, h1) = >>=-eq-ok (credit lot.commodity_id lot.quantity d) _ h in
      credit-AddsIf lot.commodity_id id lot.quantity d d1
        (λ next. Summed id (lot_amounts lots) next (amount id d')) e
        (total_lots-Summed lots d1 d' h1)

  nothing-amount : amount id [] ≡ zero_dec
  unfolding amount lookup
  nothing-amount = refl

  pub commodity_totals-Summed :
      (ps : List InventoryPosition) (lots : List TransitLot) (d : Dict String Decimal)
      → commodity_totals ps lots ≡ ok d
      → Summed id (holdings ps lots) zero_dec (amount id d)
  unfolding commodity_totals
  commodity_totals-Summed ps lots d h =
      let (d1, e, h1) = >>=-eq-ok (total_positions ps []) _ h in
      Summed-append id (stock_amounts ps) (lot_amounts lots) zero_dec (amount id d1) (amount id d)
        (subst (λ z. Summed id (stock_amounts ps) z (amount id d1)) nothing-amount
          (total_positions-Summed ps [] d1 e))
        (total_lots-Summed lots d1 d h1)

  unite-none :
      (d : Dict String Decimal) (ids : List String)
      → contains id (unite d ids) ≡ false
      → (lookup id d ≡ none) × (contains id ids ≡ false)
  unfolding unite lookup contains
  unite-none [] ids h = (refl, h)
  unite-none ((k, v) ∷ d) ids h = elim (Bool-cases (contains k ids)) [
    | inl e ↦
        let (absent, out) = unite-none d ids (rw e at h) in
        elim (Bool-cases (str_eq k id)) [
          | inl same ↦
              absurd (cc (subst (λ j. contains j ids ≡ true) ((eq_iff k id).0 same) e, out))
          | inr other ↦ (rw other absent, out)
        ]
    | inr e ↦
        let (absent, out) = unite-none d (k ∷ ids) (rw e at h) in
        (ground (arith, absent, out), ground (arith, out))
  ]

  All-contains :
      (P : String → Type 0) (ids : List String) → All P ids → contains id ids ≡ true → P id
  unfolding contains
  All-contains P [] ps h = cc
  All-contains P (k ∷ ids) ps h = elim (Bool-cases (str_eq k id)) [
    | inl same ↦ subst P ((eq_iff k id).0 same) ps.0
    | inr other ↦ All-contains P ids ps.1 (rw other at h)
  ]

  -- A commodity stands among those that are checked, or in none of the totals.
  pub commodity_ids-none :
      (opening closing : Dict String Decimal) (b : Books) (P : String → Type 0)
      → All P (commodity_ids opening closing b)
      → ((lookup id opening ≡ none)
          → (lookup id closing ≡ none)
          → (lookup id b.produced ≡ none)
          → (lookup id b.recipe_inputs ≡ none)
          → (lookup id b.consumed ≡ none)
          → (lookup id b.losses ≡ none)
          → P id)
      → P id
  unfolding commodity_ids
  commodity_ids-none opening closing b P checked missing =
      let u1 = unite opening [] in
      let u2 = unite closing u1 in
      let u3 = unite b.produced u2 in
      let u4 = unite b.recipe_inputs u3 in
      let u5 = unite b.consumed u4 in
      elim (Bool-cases (contains id (unite b.losses u5))) [
        | inl e ↦ All-contains P (unite b.losses u5) (sorted-All_back _ P _ checked) e
        | inr e ↦
            let (lost, e5) = unite-none b.losses u5 e in
            let (used, e4) = unite-none b.consumed u4 e5 in
            let (put, e3) = unite-none b.recipe_inputs u3 e4 in
            let (made, e2) = unite-none b.produced u2 e3 in
            let (last, e1) = unite-none closing u1 e2 in
            missing ((unite-none opening [] e1).0) last made put used lost
      ]
