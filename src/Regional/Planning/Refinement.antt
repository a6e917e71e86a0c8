-- ===== src/Regional/Planning/Refinement.antt =====
-- regional_market.py: the planning of `_simulate_market_month` makes only the steps of Planning/Steps.
use mathlib.Core.List.{Memᴰ}
use mathlib.Core.Path.{fun_ext}
use baen_economy_engine.Prelude.{
  ℕ, ◌+◌, ◌≡◌, refl, ap, subst, false, Option, none, some, String, List, [], ◌∷◌, ◌++◌, str_eq, ok,
  >>=-eq-ok, ok-inj, Bool-cases, inl, inr, All, All-Mem,
}
use baen_economy_engine.Prelude.Dict.{Dict, lookup, insert, string_eq, lookup-insert}
use baen_economy_engine.Decimal.Number.{Decimal, is_zero}
use baen_economy_engine.Decimal.Context.{sub}
use baen_economy_engine.Stockflow.Types.{Snapshot, EconomyModel, route_post_init}
use baen_economy_engine.Stockflow.Sorting.{sorted, sorted-All}
use baen_economy_engine.Stockflow.Books.{amount}
use baen_economy_engine.Regional.Types.{calculated}
use baen_economy_engine.Regional.Transport.{
  RouteCostTerms, dispatch_for_delivery, expected_transport_outcome,
}
use baen_economy_engine.Regional.Transport.Loop.{calculated-ok}
use baen_economy_engine.Regional.Transport.Dispatch.{dispatch_for_delivery-IsDispatch}
use baen_economy_engine.Regional.Bids.{SupplyOffer, DemandBid, DemandReceipt}
use baen_economy_engine.Regional.Planning.{
  PlannedTrade, Plans, Candidate, compare_candidate, candidates_for, book_dispatch, send_dispatch,
  try_candidate, try_candidates, plan_shortage, plan_demand, plan_demands, shipment_name,
}
use baen_economy_engine.Regional.Planning.Candidates.{IsCandidate, candidates_for-IsCandidate}
use baen_economy_engine.Regional.Planning.Steps.{Market, update, Sends, stay, send, Sends-trans}

-- The market as the code's dictionaries have it.
abbrev pub market_of : Plans → Market
market_of s = record {
  left_of = λ key. amount key s.budgets;
  room_on = λ key. amount key s.route_remaining;
  trades = s.planned;
}

amount-insert :
    (key : String) (value : Decimal) (d : Dict String Decimal)
    → (λ other. amount other (insert key value d)) ≡ update key value (λ other. amount other d)
unfolding amount
amount-insert key value d = fun_ext (λ other. elim (Bool-cases (str_eq key other)) [
  | inl e ↦ rw (lookup-insert key other value d, e) refl
  | inr e ↦ rw (lookup-insert key other value d, e) refl
])

-- The steps from one state of the loops to another.
abbrev pub Planned :
    EconomyModel
    → Snapshot
    → Dict String RouteCostTerms
    → List SupplyOffer
    → List DemandBid
    → Plans
    → Plans
    → Type 0
Planned m opening terms offers demands s s' =
    Sends m opening terms offers demands (market_of s) (market_of s')

module _ (m : EconomyModel) (opening : Snapshot) (terms : Dict String RouteCostTerms)
    (offers : List SupplyOffer) (demands : List DemandBid)
    (valid : All (λ r. route_post_init r ≡ ok r) m.routes) (period : ℕ) (source : String) where
  trade_of : DemandBid → Candidate → Decimal → Plans → PlannedTrade
  trade_of d c dispatched s = record {
    shipment_id = shipment_name period (s.sequence + 1);
    demand = d;
    offer = c.offer;
    route_id = c.route.route_id;
    dispatched_quantity = dispatched;
  }

  send_dispatch-Sends :
      (d : DemandBid) (c : Candidate) (dispatched wanted : Decimal) (s : Plans)
      (next : Decimal × Plans)
      → Memᴰ d demands
      → IsCandidate m opening terms offers d c
      → is_zero dispatched ≡ false
      → dispatch_for_delivery c.route wanted
          (amount c.offer.offer_id s.budgets)
          (amount c.route.route_id s.route_remaining)
        ≡ ok dispatched
      → send_dispatch period source d c dispatched wanted s ≡ ok next
      → Planned m opening terms offers demands s (next.1)
  unfolding send_dispatch book_dispatch trade_of
  send_dispatch-Sends d c dispatched wanted s next on_demands cand nonzero e h =
      let (on_routes, on_offers, connected, cost, costed, priced, accepted) = cand in
      let (nonneg, by_offer, by_route, by_capacity, _) =
        dispatch_for_delivery-IsDispatch c.route
          (All-Mem (λ r. route_post_init r ≡ ok r) m.routes c.route valid on_routes) wanted _ _
          dispatched e in
      let (outcome, _, h1) = >>=-eq-ok (expected_transport_outcome c.route dispatched) _ h in
      let (budget, left, h2) =
        >>=-eq-ok (calculated (sub (amount c.offer.offer_id s.budgets) dispatched)) _ h1 in
      let (room, place, h3) =
        >>=-eq-ok (calculated (sub (amount c.route.route_id s.route_remaining) dispatched)) _ h2 in
      let (still, _, h4) = >>=-eq-ok (calculated (sub wanted (outcome.1))) _ h3 in
      subst (Planned m opening terms offers demands s)
        (ap (λ (p : Decimal × Plans). p.1) (ok-inj h4))
        (send _ _ _ c.route (trade_of d c dispatched s) budget room (stay _)
          (record {
            route_known = on_routes;
            route_id = refl;
            offer_known = on_offers;
            demand_known = on_demands;
            connected = connected;
            cost = cost;
            costed = costed;
            landed = c.landed;
            landed_lem = priced;
            accepted = accepted;
          })
          (record {
            nonneg = nonneg;
            nonzero = nonzero;
            by_offer = by_offer;
            by_route = by_route;
            by_capacity = by_capacity;
          })
          (calculated-ok _ left) (calculated-ok _ place)
          (λ i. record {
            left_of = amount-insert c.offer.offer_id budget s.budgets i;
            room_on = amount-insert c.route.route_id room s.route_remaining i;
            trades = s.planned ++ (trade_of d c dispatched s ∷ []);
          }))

  try_candidate-Sends :
      (d : DemandBid) (c : Candidate) (wanted : Decimal) (s : Plans) (next : Decimal × Plans)
      → Memᴰ d demands
      → IsCandidate m opening terms offers d c
      → try_candidate period source d c wanted s ≡ ok next
      → Planned m opening terms offers demands s (next.1)
  unfolding try_candidate
  try_candidate-Sends d c wanted s next on_demands cand h =
      let (dispatched, e, h1) = >>=-eq-ok (dispatch_for_delivery c.route wanted _ _) _ h in
      elim (Bool-cases (is_zero dispatched)) [
        | inl none_sent ↦
            subst (Planned m opening terms offers demands s)
              (ap (λ (p : Decimal × Plans). p.1) (ok-inj (rw none_sent at h1))) (stay _)
        | inr sent ↦
            send_dispatch-Sends d c dispatched wanted s next on_demands cand sent e (rw sent at h1)
      ]

  try_candidates-Sends :
      (d : DemandBid) (cs : List Candidate) (wanted : Decimal) (s s' : Plans)
      → Memᴰ d demands
      → All (IsCandidate m opening terms offers d) cs
      → try_candidates period source d cs wanted s ≡ ok s'
      → Planned m opening terms offers demands s s'
  unfolding try_candidates
  try_candidates-Sends d [] wanted s s' on_demands cands h =
      subst (Planned m opening terms offers demands s) (ok-inj h) (stay _)
  try_candidates-Sends d (c ∷ cs) wanted s s' on_demands cands h =
      elim (Bool-cases (is_zero wanted)) [
        | inl served ↦
            subst (Planned m opening terms offers demands s) (ok-inj (rw served at h)) (stay _)
        | inr more ↦
            let (next, e, h1) =
              >>=-eq-ok (try_candidate period source d c wanted s) _ (rw more at h) in
            Sends-trans _ _ _ _ _ _ _ _ (try_candidate-Sends d c wanted s next on_demands cands.0 e)
              (try_candidates-Sends d cs (next.0) (next.1) s' on_demands cands.1 h1)
      ]

module _ (m : EconomyModel) (opening : Snapshot) (terms : Dict String RouteCostTerms)
    (offers : List SupplyOffer) (demands : List DemandBid)
    (valid : All (λ r. route_post_init r ≡ ok r) m.routes) (period : ℕ) (source : String)
    (receipts : Dict String DemandReceipt) where
  plan_shortage-Sends :
      (d : DemandBid) (shortage : Decimal) (s s' : Plans)
      → Memᴰ d demands
      → plan_shortage m opening terms period source offers receipts d shortage s ≡ ok s'
      → Planned m opening terms offers demands s s'
  unfolding plan_shortage
  plan_shortage-Sends d shortage s s' on_demands h = elim (Bool-cases (is_zero shortage)) [
    | inl filled ↦
        subst (Planned m opening terms offers demands s) (ok-inj (rw filled at h)) (stay _)
    | inr short ↦
        let (candidates, e, h1) =
          >>=-eq-ok (candidates_for m opening terms s.budgets offers d) _ (rw short at h) in
        try_candidates-Sends m opening terms offers demands valid period source d
          (sorted compare_candidate candidates) shortage s s' on_demands
          (sorted-All compare_candidate (IsCandidate m opening terms offers d) candidates (
            candidates_for-IsCandidate m opening terms offers s.budgets offers d candidates
              (λ o l. l) e))
          h1
  ]

  plan_demand-Sends :
      (r : Option DemandReceipt) (d : DemandBid) (s s' : Plans)
      → Memᴰ d demands
      → plan_demand m opening terms period source offers receipts r d s ≡ ok s'
      → Planned m opening terms offers demands s s'
  unfolding plan_demand
  plan_demand-Sends none d s s' on_demands h = cc
  plan_demand-Sends (some r) d s s' on_demands h =
      plan_shortage-Sends d r.shortage_quantity s s' on_demands h

  plan_each-Sends :
      (ds : List DemandBid) (s s' : Plans)
      → ((d : DemandBid) → Memᴰ d ds → Memᴰ d demands)
      → plan_demands m opening terms period source offers receipts ds s ≡ ok s'
      → Planned m opening terms offers demands s s'
  unfolding plan_demands
  plan_each-Sends [] s s' on_demands h =
      subst (Planned m opening terms offers demands s) (ok-inj h) (stay _)
  plan_each-Sends (d ∷ ds) s s' on_demands h =
      let (next, e, h1) =
        >>=-eq-ok
          (plan_demand m opening terms period source offers receipts (lookup d.demand_id receipts) d
            s)
          _ h in
      Sends-trans _ _ _ _ _ _ _ _
        (plan_demand-Sends (lookup d.demand_id receipts) d s next (on_demands d (Memᴰ.head refl)) e)
        (plan_each-Sends ds next s' (λ d' l. on_demands d' (Memᴰ.tail l)) h1)

  -- On valid routes, the planning of all demands is a sequence of steps of the abstract relation. Each step
  -- dispatches from a known offer to one of the demands, by a known route that joins their sites and carries
  -- the commodity of both, at a landed price that the demand accepts; it dispatches more than zero and at
  -- most what is left of the offer and of the route and the capacity of the route; and it takes that from
  -- this offer and this route and leaves all others.
  pub plan_demands-Sends :
      (s s' : Plans)
      → plan_demands m opening terms period source offers receipts demands s ≡ ok s'
      → Sends m opening terms offers demands (market_of s) (market_of s')
  plan_demands-Sends s s' h = plan_each-Sends demands s s' (λ d l. l) h
