-- ===== src/Regional.antt =====
-- regional_transport.py and regional_market.py: a market month over the stock-flow kernel.
pub mod Types
pub mod Transport
pub mod Bids
pub mod Trades
pub mod Prices
pub mod Demands
pub mod Planning
pub mod Settlement
pub mod Month
mod Examples
