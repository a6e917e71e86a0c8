-- ===== src/Regional/Planning/Drawn.antt =====
-- regional_market.py: what the planned trades of one offer, or on one route, take from its start.
use baen_economy_engine.Prelude.{
  ◌≡◌, refl, sym, subst, Bool, true, false, String, List, [], ◌∷◌, ◌++◌, str_eq, eq_iff, ok,
  Bool-cases, inl, inr,
}
use baen_economy_engine.Decimal.Number.{Decimal, zero_dec}
use baen_economy_engine.Decimal.Order.{Le}
use baen_economy_engine.Decimal.Context.{sub}
use baen_economy_engine.Stockflow.Types.{Snapshot, EconomyModel}
use baen_economy_engine.Regional.Transport.{RouteCostTerms}
use baen_economy_engine.Regional.Bids.{SupplyOffer, DemandBid}
use baen_economy_engine.Prelude.Dict.{Dict}
use baen_economy_engine.Regional.Planning.{PlannedTrade}
use baen_economy_engine.Regional.Planning.Steps.{Market, update, Sends, stay, send}

-- A trade that draws takes a quantity from zero up to what is left; one that does not leaves it.
abbrev pub Takes : Bool → Decimal → Decimal → (Decimal → Type 0) → Type 0
Takes true quantity left After =
    Le zero_dec quantity
    × Le quantity left
    × ((next : Decimal) × (sub left quantity ≡ ok next) × After next)
Takes false quantity left After = After left

-- The trades under the key, one after the other, draw `left` down to `rest`.
abbrev pub Drawn : (PlannedTrade → String) → String → List PlannedTrade → Decimal → Decimal → Type 0
Drawn key_of key [] left rest = rest ≡ left
Drawn key_of key (t ∷ ts) left rest =
    Takes (str_eq (key_of t) key) t.dispatched_quantity left (λ next. Drawn key_of key ts next rest)

Drawn-snoc :
    (key_of : PlannedTrade → String) (key : String) (ts : List PlannedTrade) (t : PlannedTrade)
    (left middle rest : Decimal)
    → Drawn key_of key ts left middle
    → Takes (str_eq (key_of t) key) t.dispatched_quantity middle (λ next. rest ≡ next)
    → Drawn key_of key (ts ++ (t ∷ [])) left rest
Drawn-snoc key_of key [] t left middle rest drawn last =
    subst (λ d. Takes (str_eq (key_of t) key) t.dispatched_quantity d (λ next. rest ≡ next)) drawn
      last
Drawn-snoc key_of key (u ∷ ts) t left middle rest drawn last =
    elim (Bool-cases (str_eq (key_of u) key)) [
      | inl e ↦
          let (nonneg, within, (next, taken, more)) = rw e at drawn in
          rw e
            (nonneg, within, (next, taken, Drawn-snoc key_of key ts t next middle rest more last))
      | inr e ↦ rw e (Drawn-snoc key_of key ts t left middle rest (rw e at drawn) last)
    ]

update-Takes :
    (id key : String) (quantity value : Decimal) (f : String → Decimal)
    → Le zero_dec quantity
    → Le quantity (f id)
    → sub (f id) quantity ≡ ok value
    → Takes (str_eq id key) quantity (f key) (λ next. update id value f key ≡ next)
update-Takes id key quantity value f nonneg within taken = elim (Bool-cases (str_eq id key)) [
  | inl e ↦
      let same : id ≡ key = (eq_iff id key).0 e in
      rw e (
        nonneg,
        subst (λ k. Le quantity (f k)) same within,
        (value, subst (λ k. sub (f k) quantity ≡ ok value) same taken, refl),
      )
  | inr e ↦ rw e refl
]

module _ (m : EconomyModel) (opening : Snapshot) (terms : Dict String RouteCostTerms)
    (offers : List SupplyOffer) (demands : List DemandBid) (key : String) (start : Decimal) where
  pub Sends-Drawn_offer :
      (s s' : Market)
      → Sends m opening terms offers demands s s'
      → Drawn (λ t. t.offer.offer_id) key s.trades start (s.left_of key)
      → Drawn (λ t. t.offer.offer_id) key s'.trades start (s'.left_of key)
  Sends-Drawn_offer s s' (stay _) drawn = drawn
  Sends-Drawn_offer s s' (send _ before after r t budget room earlier offered within left place e)
        drawn =
      subst (λ (x : Market). Drawn (λ t. t.offer.offer_id) key x.trades start (x.left_of key))
        (sym e)
        (Drawn-snoc (λ t. t.offer.offer_id) key before.trades t start (before.left_of key) _
          (Sends-Drawn_offer s before earlier drawn)
          (update-Takes t.offer.offer_id key t.dispatched_quantity budget before.left_of
            within.nonneg within.by_offer left))

  pub Sends-Drawn_route :
      (s s' : Market)
      → Sends m opening terms offers demands s s'
      → Drawn (λ t. t.route_id) key s.trades start (s.room_on key)
      → Drawn (λ t. t.route_id) key s'.trades start (s'.room_on key)
  Sends-Drawn_route s s' (stay _) drawn = drawn
  Sends-Drawn_route s s' (send _ before after r t budget room earlier offered within left place e)
        drawn =
      subst (λ (x : Market). Drawn (λ t. t.route_id) key x.trades start (x.room_on key)) (sym e)
        (Drawn-snoc (λ t. t.route_id) key before.trades t start (before.room_on key) _
          (Sends-Drawn_route s before earlier drawn)
          (subst
            (λ id.
              Takes (str_eq id key) t.dispatched_quantity (before.room_on key)
                (λ next. update r.route_id room before.room_on key ≡ next))
            (sym offered.route_id)
            (update-Takes r.route_id key t.dispatched_quantity room before.room_on within.nonneg
              within.by_route place)))
