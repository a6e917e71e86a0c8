-- ===== src/Decimal.antt =====
-- Python's `decimal.Decimal`, as the engine uses it: finite numbers, their exact order, and the
-- arithmetic of the 40-digit half-even context that every calculating module builds for itself.
pub mod Number
pub mod Order
pub mod Sums
pub mod Context
pub mod Next
pub mod Text
mod Examples
