-- ===== src/Ethtest.antt =====
-- ethtest: helpers for tests of Ethereum contracts on a simulated chain.
pub mod Errors
pub mod Backend
pub mod Bindings
pub mod Chainlink
pub mod Doubles
pub mod Helpers
