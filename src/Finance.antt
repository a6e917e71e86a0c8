-- ===== src/Finance.antt =====
-- finance.py: the journal of the campaign ledger, which is bound to the store of events.
pub mod Patterns
pub mod Amount
pub mod Contract
pub mod Journal
pub mod Book
