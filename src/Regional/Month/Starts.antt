-- ===== src/Regional/Month/Starts.antt =====
-- regional_market.py: the budgets of the offers and the capacities of the routes that the planning in
-- `_simulate_market_month` starts from.
use mathlib.Core.List.{Memᴰ}
use baen_economy_engine.Prelude.{
  ◌≡◌, ◌⊎◌, refl, subst, arith, String, List, [], ◌∷◌, ok, >>=-eq-ok, raise_if-ok, ok-inj,
  Bool-cases, inl, inr, All, any, ltb,
}
use baen_economy_engine.Prelude.Dict.{Eq, Dict, lookup, insert, string_eq, pair_eq, lookup-insert}
use baen_economy_engine.Decimal.Number.{Decimal, zero_dec, lt_dec, min_dec}
use baen_economy_engine.Decimal.Order.{Le, le_refl, not_lt-le, le-min, min-le_left, min-le_right}
use baen_economy_engine.Decimal.Context.{add, sub}
use baen_economy_engine.Decimal.Context.Signs.{add-nonneg, sub-nonneg}
use baen_economy_engine.Stockflow.Types.{
  InventoryPosition, Route, route_post_init, bad_travel, bad_capacity,
}
use baen_economy_engine.Stockflow.Books.{StockKey, amount}
use baen_economy_engine.Stockflow.Verify.Facts.{IsReserved}
use baen_economy_engine.Regional.Types.{
  negative_amount, calculated, require_texts, require_nonnegative,
}
use baen_economy_engine.Regional.Transport.Loop.{calculated-ok}
use baen_economy_engine.Regional.Bids.{SupplyOffer, offer_post_init}
use baen_economy_engine.Regional.Planning.{
  offer_key, exportable_from, budgets_from, capacities_from,
}

-- No amount is below zero.
abbrev pub IsCovered {ℓ} : {K : Type ℓ} ⦃e : Eq K⦄ → Dict K Decimal → Type ℓ
IsCovered {K = K} d = (key : K) → Le zero_dec (amount key d)

insert-Each {ℓ} :
    {K : Type ℓ} ⦃e : Eq K⦄ (P : K → Decimal → Type 0) (key : K) (value : Decimal)
    (d : Dict K Decimal)
    → P key value
    → ((other : K) → P other (amount other d))
    → (other : K) → P other (amount other (insert key value d))
unfolding amount
insert-Each ⦃e⦄ P key value d new old other = elim (Bool-cases (e.beq key other)) [
  | inl same ↦
      rw (lookup-insert key other value d, same)
        (subst (λ k. P k value) ((e.beq_iff key other).0 same) new)
  | inr differs ↦ rw (lookup-insert key other value d, differs) (old other)
]

insert-IsCovered {ℓ} :
    {K : Type ℓ} ⦃e : Eq K⦄ (key : K) (value : Decimal) (d : Dict K Decimal)
    → Le zero_dec value
    → IsCovered d
    → IsCovered (insert key value d)
insert-IsCovered key value d = insert-Each (λ k v. Le zero_dec v) key value d

-- A start from zero up to the quantity of an offer of this id; zero where no offer has it.
abbrev pub IsBudget : List SupplyOffer → String → Decimal → Type 0
IsBudget offers key start =
    Le zero_dec start
    × ((start ≡ zero_dec)
        ⊎ ((o : SupplyOffer) × Memᴰ o offers × (o.offer_id ≡ key) × Le start o.offered_quantity))

-- The capacity of a route of this id; zero where no route has it.
abbrev pub IsCapacity : List Route → String → Decimal → Type 0
IsCapacity routes key start =
    Le zero_dec start
    × ((start ≡ zero_dec)
        ⊎ ((r : Route) × Memᴰ r routes × (r.route_id ≡ key) × (start ≡ r.capacity_per_period)))

pub exportable_from-IsCovered :
    (ps : List InventoryPosition) (stock stock' : Dict StockKey Decimal)
    → All IsReserved ps
    → IsCovered stock
    → exportable_from ps stock ≡ ok stock'
    → IsCovered stock'
unfolding exportable_from
exportable_from-IsCovered [] stock stock' sound covered h = subst IsCovered (ok-inj h) covered
exportable_from-IsCovered (p ∷ ps) stock stock' sound covered h =
    let key : StockKey = (p.site_id, p.commodity_id) in
    let (free, e, h1) = >>=-eq-ok (calculated (sub p.quantity p.reserved_quantity)) _ h in
    let (total, e1, h2) = >>=-eq-ok (calculated (add (amount key stock) free)) _ h1 in
    let some_free =
      sub-nonneg p.quantity p.reserved_quantity free sound.0.0 sound.0.1 (calculated-ok _ e) in
    let summed =
      add-nonneg (amount key stock) free total (covered key) some_free (calculated-ok _ e1) in
    exportable_from-IsCovered ps (insert key total stock) stock' sound.1
      (insert-IsCovered key total stock summed covered) h2

abbrev pub IsOffer : SupplyOffer → Type 0
IsOffer o = offer_post_init o ≡ ok o

offered-nonneg : (o : SupplyOffer) → IsOffer o → Le zero_dec o.offered_quantity
unfolding offer_post_init require_nonnegative require_texts
offered-nonneg o valid =
    let (_, _, h1) =
      >>=-eq-ok
        (require_texts
          (o.offer_id ∷ o.seller_entity_id ∷ o.site_id ∷ o.commodity_id ∷ o.source_ref ∷ []))
        _ valid in
    let (sign, _) =
      raise_if-ok (any (λ d. lt_dec d zero_dec) (o.offered_quantity ∷ [])) negative_amount _ h1 in
    not_lt-le o.offered_quantity zero_dec (ground (arith, sign))

pub budgets_from-IsBudget :
    (offers os : List SupplyOffer) (stock : Dict StockKey Decimal)
    (budgets budgets' : Dict String Decimal)
    → ((o : SupplyOffer) → Memᴰ o os → Memᴰ o offers)
    → All IsOffer os
    → IsCovered stock
    → ((key : String) → IsBudget offers key (amount key budgets))
    → budgets_from os stock budgets ≡ ok budgets'
    → (key : String) → IsBudget offers key (amount key budgets')
unfolding budgets_from
budgets_from-IsBudget offers [] stock budgets budgets' within valid stocked covered h =
    subst (λ (d : Dict String Decimal). (key : String) → IsBudget offers key (amount key d))
      (ok-inj h) covered
budgets_from-IsBudget offers (o ∷ os) stock budgets budgets' within valid stocked covered h =
    let held = amount (offer_key o) stock in
    let budget = min_dec o.offered_quantity held in
    let (left, e, h1) = >>=-eq-ok (calculated (sub held budget)) _ h in
    let some_budget =
      le-min o.offered_quantity held zero_dec (offered-nonneg o valid.0) (stocked (offer_key o)) in
    let rest =
      sub-nonneg held budget left some_budget (min-le_right o.offered_quantity held)
        (calculated-ok _ e) in
    budgets_from-IsBudget offers os (insert (offer_key o) left stock)
      (insert o.offer_id budget budgets) budgets' (λ o' l. within o' (Memᴰ.tail l)) valid.1
      (insert-IsCovered (offer_key o) left stock rest stocked)
      (insert-Each (IsBudget offers) o.offer_id budget budgets
        (some_budget, inr (o, within o (Memᴰ.head refl), refl, min-le_left o.offered_quantity held))
        covered)
      h1

capacity-nonneg : (r : Route) → route_post_init r ≡ ok r → Le zero_dec r.capacity_per_period
unfolding route_post_init
capacity-nonneg r valid =
    let (_, h1) = raise_if-ok (ltb r.travel_periods 1) bad_travel _ valid in
    let (room, _) = raise_if-ok (lt_dec r.capacity_per_period zero_dec) bad_capacity _ h1 in
    not_lt-le _ _ room

pub capacities_from-IsCapacity :
    (routes rs : List Route) (left : Dict String Decimal)
    → ((r : Route) → Memᴰ r rs → Memᴰ r routes)
    → All (λ r. route_post_init r ≡ ok r) rs
    → ((key : String) → IsCapacity routes key (amount key left))
    → (key : String) → IsCapacity routes key (amount key (capacities_from rs left))
unfolding capacities_from
capacities_from-IsCapacity routes [] left within valid covered = covered
capacities_from-IsCapacity routes (r ∷ rs) left within valid covered =
    capacities_from-IsCapacity routes rs (insert r.route_id r.capacity_per_period left)
      (λ r' l. within r' (Memᴰ.tail l)) valid.1
      (insert-Each (IsCapacity routes) r.route_id r.capacity_per_period left
        (capacity-nonneg r valid.0, inr (r, within r (Memᴰ.head refl), refl, refl)) covered)

pub nothing-IsCovered {ℓ} : {K : Type ℓ} ⦃e : Eq K⦄ → IsCovered {K = K} []
unfolding amount lookup
nothing-IsCovered key = le_refl zero_dec

pub nothing-amount : (key : String) → amount key [] ≡ zero_dec
unfolding amount lookup
nothing-amount key = refl
