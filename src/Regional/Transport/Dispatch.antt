-- ===== src/Regional/Transport/Dispatch.antt =====
-- regional_transport.py: what `dispatch_for_delivery` returns.
use baen_economy_engine.Prelude.{
  ltb, suc, ◌≡◌, ◌≢◌, inl, inr, refl, subst, arith, Bool, true, false, ◌||◌, [], ◌∷◌, ok, err,
  >>=-eq-ok, ok-inj, raise_if-ok, raise_if-passed, Bool-cases, if◌then◌else◌, any,
}
use baen_economy_engine.Decimal.Number.{
  Decimal, zero_dec, one_dec, le_dec, lt_dec, is_zero, min_dec, max_dec,
}
use baen_economy_engine.Decimal.Order.{
  Le, le_refl, le_trans, le-min, max-le, min-le_left, min-le_right, le-max_left, max-cases, lt-le,
  not_lt-le, nonneg_iff,
}
use baen_economy_engine.Decimal.Context.{sub, divide}
use baen_economy_engine.Decimal.Context.Signs.{positive_sign, sub-negative, divide-negative}
use baen_economy_engine.Decimal.Next.Descent.{rank}
use baen_economy_engine.Stockflow.Types.{
  Route, route_post_init, bad_travel, bad_capacity, bad_loss, is_bad_rate,
}
use baen_economy_engine.Regional.Types.{
  negative_amount, out_of_fuel, calculated, require_nonnegative,
}
use baen_economy_engine.Regional.Transport.{
  loss_and_delivery, step_down, plan_dispatch, dispatch_below, most_of, dispatch_for_delivery,
}
use baen_economy_engine.Regional.Transport.Loop.{
  Delivers, zero-Le, zero-Delivers, Ends, raise_negative-Ends, calculated-Ends, calculated-ok,
  bind-Ends, loss_and_delivery-Ends, step_down-IsStep, step_down-Ends,
}

module _ (route : Route) (valid : route_post_init route ≡ ok route) where
  route_bounds :
      Le zero_dec route.capacity_per_period
      × Le zero_dec route.loss_rate
      × (lt_dec route.loss_rate one_dec ≡ true)
  unfolding route_post_init
  route_bounds =
      let (_, h1) = raise_if-ok (ltb route.travel_periods 1) bad_travel _ valid in
      let (room, h2) = raise_if-ok (lt_dec route.capacity_per_period zero_dec) bad_capacity _ h1 in
      let (rate, _) = raise_if-ok (is_bad_rate route.loss_rate) bad_loss _ h2 in
      (not_lt-le _ _ room, ground (arith, rate), ground (arith, rate))

  survival_sign :
      (survival : Decimal) → sub one_dec route.loss_rate ≡ ok survival → survival.negative ≡ false
  survival_sign survival h =
      let (_, nonneg, small) = route_bounds in
      sub-negative one_dec route.loss_rate survival refl ((nonneg_iff route.loss_rate).1 nonneg)
        (lt-le route.loss_rate one_dec small) h

  module _ (desired stock capacity : Decimal) where
    -- A dispatch within every limit.
    abbrev pub IsDispatch : Decimal → Type 0
    IsDispatch d =
        Le zero_dec d
        × Le d stock
        × Le d capacity
        × Le d route.capacity_per_period
        × Delivers route.loss_rate desired d

    abbrev maximum : Decimal
    maximum = most_of route stock capacity

    within :
        (d : Decimal)
        → Le zero_dec d
        → Le d maximum
        → Delivers route.loss_rate desired d
        → IsDispatch d
    within d nonneg below delivers =
        let pair = min_dec stock capacity in
        let low : Le d pair =
          le_trans d maximum pair below (min-le_left pair route.capacity_per_period) in
        (
          nonneg,
          le_trans d pair stock low (min-le_left stock capacity),
          le_trans d pair capacity low (min-le_right stock capacity),
          le_trans d maximum route.capacity_per_period below
              (min-le_right pair route.capacity_per_period),
          delivers,
        )

    abbrev first_try : Decimal → Decimal
    first_try quotient = if lt_dec maximum quotient then maximum else quotient

    first_try_lem :
        (quotient : Decimal)
        → maximum.negative ≡ false
        → quotient.negative ≡ false
        → ((first_try quotient).negative ≡ false) × Le (first_try quotient) maximum
    first_try_lem quotient pos_max pos_quotient = elim (Bool-cases (lt_dec maximum quotient)) [
      | inl large ↦ rw large (pos_max, le_refl maximum)
      | inr small ↦ rw small (pos_quotient, not_lt-le maximum quotient small)
    ]

    plan_dispatch-IsDispatch :
        (survival d : Decimal)
        → desired.negative ≡ false
        → maximum.negative ≡ false
        → Le zero_dec maximum
        → survival.negative ≡ false
        → plan_dispatch route.loss_rate desired maximum survival ≡ ok d
        → IsDispatch d
    unfolding plan_dispatch
    plan_dispatch-IsDispatch survival d pos pos_max nonneg_max pos_survival h =
        let (quotient, e, h1) = >>=-eq-ok (calculated (divide desired survival)) _ h in
        let (step, run, h2) =
          >>=-eq-ok
            (step_down (suc (rank (first_try quotient))) route.loss_rate desired
              (first_try quotient))
            _ h1 in
        let sign = divide-negative desired survival quotient pos pos_survival (calculated-ok _ e) in
        let (pos_first, below) = first_try_lem quotient pos_max sign in
        let (_, low, delivers) =
          step_down-IsStep route.loss_rate desired pos _ (first_try quotient) step pos_first run in
        let at_most = le_trans step (first_try quotient) maximum low below in
        subst IsDispatch (ok-inj h2) (
          within (max_dec zero_dec step) (le-max_left zero_dec step)
            (max-le zero_dec step maximum nonneg_max at_most)
            (elim (max-cases zero_dec step) [
              | inl none_sent ↦ rw none_sent (
                  zero-Delivers route.loss_rate desired zero_dec refl
                    (zero-Le zero_dec desired refl pos))
              | inr sent ↦ rw sent delivers
            ]))

    plan_dispatch-Ends :
        (survival : Decimal)
        → desired.negative ≡ false
        → maximum.negative ≡ false
        → survival.negative ≡ false
        → Ends (plan_dispatch route.loss_rate desired maximum survival)
    unfolding plan_dispatch
    plan_dispatch-Ends survival pos pos_max pos_survival =
        bind-Ends (calculated (divide desired survival)) _ (calculated-Ends _) (λ quotient e.
          let sign =
            divide-negative desired survival quotient pos pos_survival (calculated-ok _ e) in
          let (pos_first, _) = first_try_lem quotient pos_max sign in
          bind-Ends
            (step_down (suc (rank (first_try quotient))) route.loss_rate desired
              (first_try quotient))
            _
            (step_down-Ends route.loss_rate desired pos _ (first_try quotient) pos_first
              (omega arith))
            (λ step _ h. cc))

    -- What the checks of the three quantities give.
    quantities :
        any (λ d. lt_dec d zero_dec) (desired ∷ stock ∷ capacity ∷ []) ≡ false
        → Le zero_dec desired × Le zero_dec maximum
    quantities h =
        let (room, _, _) = route_bounds in
        (
          not_lt-le desired zero_dec (ground (arith, h)),
          le-min _ route.capacity_per_period zero_dec
              (le-min stock capacity zero_dec (not_lt-le stock zero_dec (ground (arith, h)))
                (not_lt-le capacity zero_dec (ground (arith, h))))
              room,
        )

    abbrev nothing_left : Bool
    nothing_left = is_zero desired || is_zero maximum

    -- Both are above zero.
    signs :
        Le zero_dec desired
        → Le zero_dec maximum
        → nothing_left ≡ false
        → (desired.negative ≡ false) × (maximum.negative ≡ false)
    signs nonneg nonneg_max some_left = (
      positive_sign desired nonneg (ground (arith, some_left)),
      positive_sign maximum nonneg_max (ground (arith, some_left)),
    )

    dispatch_below-IsDispatch :
        (d : Decimal)
        → Le zero_dec desired
        → Le zero_dec maximum
        → nothing_left ≡ false
        → dispatch_below route.loss_rate desired maximum ≡ ok d
        → IsDispatch d
    unfolding dispatch_below
    dispatch_below-IsDispatch d nonneg nonneg_max some_left h =
        let (pos, pos_max) = signs nonneg nonneg_max some_left in
        let (survival, e, h1) = >>=-eq-ok (calculated (sub one_dec route.loss_rate)) _ h in
        let (outcome, e1, h2) = >>=-eq-ok (loss_and_delivery route.loss_rate maximum) _ h1 in
        elim (Bool-cases (le_dec (outcome.1) desired)) [
          | inl all_sent ↦
              subst IsDispatch (ok-inj (rw all_sent at h2))
                (within maximum nonneg_max (le_refl maximum) (outcome, e1, all_sent))
          | inr over ↦
              plan_dispatch-IsDispatch survival d pos pos_max nonneg_max
                (survival_sign survival (calculated-ok _ e)) (rw over at h2)
        ]

    dispatch_below-Ends :
        Le zero_dec desired
        → Le zero_dec maximum
        → nothing_left ≡ false
        → Ends (dispatch_below route.loss_rate desired maximum)
    unfolding dispatch_below
    dispatch_below-Ends nonneg nonneg_max some_left =
        let (pos, pos_max) = signs nonneg nonneg_max some_left in
        bind-Ends (calculated (sub one_dec route.loss_rate)) _ (calculated-Ends _) (λ survival e.
          bind-Ends (loss_and_delivery route.loss_rate maximum) _ (loss_and_delivery-Ends _ _)
            (λ outcome _. elim (Bool-cases (le_dec (outcome.1) desired)) [
              | inl all_sent ↦ rw all_sent (λ r. cc)
              | inr over ↦ rw over (
                  plan_dispatch-Ends survival pos pos_max
                    (survival_sign survival (calculated-ok _ e)))
            ]))

    -- A dispatch that is planned on a valid route is at least zero and at most the stock, the capacity left
    -- and the capacity of the route, and what of it is expected to arrive is at most the desired delivery.
    pub dispatch_for_delivery-IsDispatch :
        (d : Decimal) → dispatch_for_delivery route desired stock capacity ≡ ok d → IsDispatch d
    unfolding dispatch_for_delivery require_nonnegative
    dispatch_for_delivery-IsDispatch d h =
        let (checked, h1) =
          raise_if-ok (any (λ d. lt_dec d zero_dec) (desired ∷ stock ∷ capacity ∷ []))
            negative_amount _ h in
        let (nonneg, nonneg_max) = quantities checked in
        elim (Bool-cases (is_zero desired || is_zero maximum)) [
          | inl nothing ↦ subst IsDispatch (ok-inj (rw nothing at h1)) (
              within zero_dec (le_refl zero_dec) nonneg_max
                (zero-Delivers route.loss_rate desired zero_dec refl nonneg))
          | inr some_left ↦
              dispatch_below-IsDispatch d nonneg nonneg_max some_left (rw some_left at h1)
        ]

    -- A dispatch that is planned on a valid route is planned within the fuel of its loop.
    pub dispatch_for_delivery-Ends :
        dispatch_for_delivery route desired stock capacity ≢ err out_of_fuel
    unfolding dispatch_for_delivery require_nonnegative
    dispatch_for_delivery-Ends =
        bind-Ends (require_nonnegative (desired ∷ stock ∷ capacity ∷ [])) _ (raise_negative-Ends _)
          (λ _ e.
            let (nonneg, nonneg_max) = quantities (raise_if-passed _ negative_amount e) in
            elim (Bool-cases nothing_left) [
              | inl nothing ↦ rw nothing (λ r. cc)
              | inr some_left ↦ rw some_left (dispatch_below-Ends nonneg nonneg_max some_left)
            ])
