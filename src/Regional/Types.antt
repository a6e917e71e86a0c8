-- ===== src/Regional/Types.antt =====
-- regional_transport.py and regional_market.py: the errors, and the checks that both files repeat.
use baen_economy_engine.Prelude.{
  Bool, ◌||◌, not, Option, none, some, String, List, [], ◌∷◌, str_eq, any, Result, ok, err,
  raise_if,
}
use baen_economy_engine.Prelude.Text.{has_text, is_trimmed}
use baen_economy_engine.Decimal.Number.{Decimal, zero_dec, lt_dec}
use baen_economy_engine.Decimal.Context.{DecimalError}
use baen_economy_engine.Stockflow.Types.{Sim, SimulationError}

-- Both exception classes, what the kernel raises, and what the decimal library raises. A run out of
-- fuel is none of the program's: it is the model's own, for the loop of `dispatch_for_delivery`.
pub data RegionalError : Type 0 where
  bad_text negative_amount not_scenario over_capacity not_conserved bad_arrival : RegionalError
  cost_mismatch route_mismatch bad_departure nonpositive_quantity bad_reservation : RegionalError
  nonpositive_price value_mismatch total_mismatch bad_periods bad_status : RegionalError
  actual_timeline bad_period duplicate_id unknown_reference untracked_price : RegionalError
  unknown_route unknown_commodity needs_mismatch unallocated unresolved_dispatch : RegionalError
  out_of_fuel : RegionalError
  from_kernel : SimulationError → RegionalError
  arithmetic : DecimalError → RegionalError

abbrev pub Regional {ℓ} : Type ℓ → Type ℓ
Regional A = Result RegionalError A

abbrev pub calculated {ℓ} : {A : Type ℓ} → Result DecimalError A → Regional A
calculated (ok a) = ok a
calculated (err e) = err (arithmetic e)

abbrev pub by_kernel {ℓ} : {A : Type ℓ} → Sim A → Regional A
by_kernel (ok a) = ok a
by_kernel (err e) = err (from_kernel e)

-- `_require_text`, of each text of a list
unfoldable pub require_texts : List String → Regional (Unit {0})
require_texts values = raise_if (any (λ s. not (has_text s) || not (is_trimmed s)) values) bad_text

abbrev pub optional_text : Option String → List String
optional_text none = []
optional_text (some s) = s ∷ []

-- `if value < ZERO: raise`, of each value of a list
unfoldable pub require_nonnegative : List Decimal → Regional (Unit {0})
require_nonnegative values = raise_if (any (λ d. lt_dec d zero_dec) values) negative_amount

-- `authority != "scenario_input" or canonical is not False`
unfoldable pub require_scenario : String → Bool → Regional (Unit {0})
require_scenario authority canonical =
    raise_if (not (str_eq authority "scenario_input") || canonical) not_scenario
