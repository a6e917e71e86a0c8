-- ===== src/Regional/Planning/Candidates.antt =====
-- regional_market.py: the candidates of a demand, and what each of them has passed.
use mathlib.Core.List.{Memᴰ}
use baen_economy_engine.Prelude.{
  ◌≡◌, refl, subst, arith, true, false, Option, none, some, String, List, [], ◌∷◌, eq_iff,
  if◌then◌else◌, ok, >>=-eq-ok, ok-inj, Bool-cases, inl, inr, All, All-append,
}
use baen_economy_engine.Prelude.Dict.{Dict, lookup, string_eq}
use baen_economy_engine.Decimal.Number.{Decimal, is_zero}
use baen_economy_engine.Decimal.Order.{not_lt-le}
use baen_economy_engine.Stockflow.Types.{Route, Snapshot, EconomyModel}
use baen_economy_engine.Stockflow.Books.{amount}
use baen_economy_engine.Regional.Transport.{RouteCostTerms}
use baen_economy_engine.Regional.Bids.{SupplyOffer, DemandBid}
use baen_economy_engine.Regional.Prices.{landed_price}
use baen_economy_engine.Regional.Planning.{
  Candidate, connects, is_too_dear, candidate_by, candidates_on, candidates_for,
}
use baen_economy_engine.Regional.Planning.Steps.{Connects, Accepts, IsAccepted}

connects-Connects :
    (r : Route) (o : SupplyOffer) (d : DemandBid) → connects r o d ≡ true → Connects r o d
unfolding connects
connects-Connects r o d h = (
  (eq_iff r.origin_site_id o.site_id).0 (ground (arith, h)),
  (eq_iff r.destination_site_id d.site_id).0 (ground (arith, h)),
  (eq_iff r.commodity_id d.commodity_id).0 (ground (arith, h)),
  (eq_iff o.commodity_id d.commodity_id).0 (ground (arith, h)),
)

too_dear-IsAccepted :
    (reservation : Option Decimal) (landed : Decimal)
    → is_too_dear reservation landed ≡ false
    → IsAccepted reservation landed
too_dear-IsAccepted none landed h = tt
too_dear-IsAccepted (some reservation) landed h = not_lt-le reservation landed h

module _ (m : EconomyModel) (opening : Snapshot) (terms : Dict String RouteCostTerms)
    (offers : List SupplyOffer) where
  -- What a candidate has passed.
  abbrev pub IsCandidate : DemandBid → Candidate → Type 0
  IsCandidate d c =
      Memᴰ c.route m.routes
      × Memᴰ c.offer offers
      × Connects c.route c.offer d
      × (cost : RouteCostTerms) × (lookup c.route.route_id terms ≡ some cost)
      × (landed_price m opening c.route cost ≡ ok c.landed)
      × Accepts d c.landed

  candidate_by-IsCandidate :
      (t : Option RouteCostTerms) (r : Route) (o : SupplyOffer) (d : DemandBid)
      (cs : List Candidate)
      → lookup r.route_id terms ≡ t
      → Memᴰ r m.routes
      → Memᴰ o offers
      → candidate_by m opening terms t r o d ≡ ok cs
      → All (IsCandidate d) cs
  unfolding candidate_by
  candidate_by-IsCandidate none r o d cs known on_routes on_offers h =
      subst (All (IsCandidate d)) (ok-inj h) tt
  candidate_by-IsCandidate (some t) r o d cs known on_routes on_offers h =
      elim (Bool-cases (connects r o d)) [
        | inr e ↦ subst (All (IsCandidate d)) (ok-inj (rw e at h)) tt
        | inl e ↦
            let (landed, priced, h1) = >>=-eq-ok (landed_price m opening r t) _ (rw e at h) in
            elim (Bool-cases (is_too_dear d.reservation_price_gp_per_delivered_unit landed)) [
              | inl dear ↦ subst (All (IsCandidate d)) (ok-inj (rw dear at h1)) tt
              | inr fair ↦ subst (All (IsCandidate d)) (ok-inj (rw fair at h1)) (
                (
                  on_routes,
                  on_offers,
                  connects-Connects r o d e,
                  t,
                  known,
                  priced,
                  too_dear-IsAccepted d.reservation_price_gp_per_delivered_unit landed fair,
                ),
                tt,
              )
            ]
      ]

  candidates_on-IsCandidate :
      (rs : List Route) (o : SupplyOffer) (d : DemandBid) (cs : List Candidate)
      → ((r : Route) → Memᴰ r rs → Memᴰ r m.routes)
      → Memᴰ o offers
      → candidates_on m opening terms rs o d ≡ ok cs
      → All (IsCandidate d) cs
  unfolding candidates_on
  candidates_on-IsCandidate [] o d cs on_routes on_offers h =
      subst (All (IsCandidate d)) (ok-inj h) tt
  candidates_on-IsCandidate (r ∷ rs) o d cs on_routes on_offers h =
      let (first, e, h1) =
        >>=-eq-ok (candidate_by m opening terms (lookup r.route_id terms) r o d) _ h in
      let (others, e1, h2) = >>=-eq-ok (candidates_on m opening terms rs o d) _ h1 in
      subst (All (IsCandidate d)) (ok-inj h2) (
        All-append (IsCandidate d) first others
          (candidate_by-IsCandidate (lookup r.route_id terms) r o d first refl
            (on_routes r (Memᴰ.head refl)) on_offers e)
          (candidates_on-IsCandidate rs o d others (λ r' l. on_routes r' (Memᴰ.tail l)) on_offers
            e1))

  pub candidates_for-IsCandidate :
      (budgets : Dict String Decimal) (os : List SupplyOffer) (d : DemandBid) (cs : List Candidate)
      → ((o : SupplyOffer) → Memᴰ o os → Memᴰ o offers)
      → candidates_for m opening terms budgets os d ≡ ok cs
      → All (IsCandidate d) cs
  unfolding candidates_for
  candidates_for-IsCandidate budgets [] d cs on_offers h = subst (All (IsCandidate d)) (ok-inj h) tt
  candidates_for-IsCandidate budgets (o ∷ os) d cs on_offers h =
      let test = is_zero (amount o.offer_id budgets) in
      let (first, e, h1) =
        >>=-eq-ok (if test then ok [] else candidates_on m opening terms m.routes o d) _ h in
      let (others, e1, h2) = >>=-eq-ok (candidates_for m opening terms budgets os d) _ h1 in
      let here : All (IsCandidate d) first = elim (Bool-cases test) [
        | inl spent ↦ subst (All (IsCandidate d)) (ok-inj (rw spent at e)) tt
        | inr some_left ↦
            candidates_on-IsCandidate m.routes o d first (λ r l. l) (on_offers o (Memᴰ.head refl))
              (rw some_left at e)
      ] in
      subst (All (IsCandidate d)) (ok-inj h2) (
        All-append (IsCandidate d) first others here
          (candidates_for-IsCandidate budgets os d others (λ o' l. on_offers o' (Memᴰ.tail l)) e1))
