-- ===== src/Domain.antt =====
-- domain.py: the authority and time labels, the registry record with its eligibility, and the
-- assignment of one simulation mode to an entity in a period.
pub mod Labels
pub mod Eligibility
pub mod Assignments
mod Examples
