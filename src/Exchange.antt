-- ===== src/Exchange.antt =====
-- The exchange layer, app/exchange: the value objects, the symbols, and the simulated exchange.
pub mod Ccxt
pub mod Models
pub mod Symbol
pub mod Paper
pub mod Registry
pub mod Factory
