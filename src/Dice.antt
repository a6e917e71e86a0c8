-- ===== src/Dice.antt =====
-- operator_dice.py, business_month.py: seeded dice, the classes of a 3d6 check, and the factors
-- that a check puts on revenue and cost.
pub mod Classify
pub mod Factors
pub mod Ranking
pub mod Sampling
pub mod Manifest
mod Examples
