-- ===== src/Eth.antt =====
-- eth: accounts, signatures and units of Ethereum.
pub mod Signer
pub mod Converters
pub mod Wallet
mod Tests
