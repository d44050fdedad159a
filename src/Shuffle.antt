-- ===== src/Shuffle.antt =====
-- ethier/shuffle.go: the verifiable shuffle of the lines of an allow-list.
pub mod Entropy
pub mod Lines
pub mod Command
mod Tests
