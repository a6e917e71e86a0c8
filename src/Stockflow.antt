-- ===== src/Stockflow.antt =====
-- stockflow.py: the stock-flow kernel. A snapshot of a timeline advances by one period: lots
-- arrive, recipes run, shipments leave, needs consume, prices answer, and the books are checked.
pub mod Types
pub mod Sorting
pub mod Books
pub mod Arrivals
pub mod Production
pub mod Shipments
pub mod Price
pub mod Needs
pub mod Values
pub mod Hashing
pub mod Verify
pub mod Authority
pub mod Closing
pub mod Advance
pub mod Opening
pub mod Fixture
mod Examples
