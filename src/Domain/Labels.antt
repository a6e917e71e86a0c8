-- ===== src/Domain/Labels.antt =====
-- domain.py: the enumerations.
use baen_economy_engine.Prelude.{Bool, true, false}

pub data TemporalState : Type 0 where
  current historical forward_resolved projected superseded unknown : TemporalState

pub data Authority : Type 0 where
  canon_import user_ruling campaign_resolution engine_derived scenario_assumption : Authority

pub data SimulationMode : Type 0 where
  legacy stock_flow cost_center consolidation_only external : SimulationMode

pub data AccountingTreatment : Type 0 where
  operating_unit consolidation_only non_operating_asset cost_center : AccountingTreatment
  project financial_instrument superseded unknown : AccountingTreatment

-- `state is TemporalState.CURRENT`
abbrev pub is_current : TemporalState → Bool
is_current current = true
is_current _ = false

-- `authority in {CANON_IMPORT, USER_RULING, CAMPAIGN_RESOLUTION}`
abbrev pub is_authoritative : Authority → Bool
is_authoritative canon_import = true
is_authoritative user_ruling = true
is_authoritative campaign_resolution = true
is_authoritative engine_derived = false
is_authoritative scenario_assumption = false
