-- ===== src/Solcover.antt =====
-- solcover: from program counters of the EVM to Solidity source, and the coverage report.
pub mod ByteCode
pub mod Location
pub mod SourceMap
pub mod Registry
pub mod Coverage
mod Tests
