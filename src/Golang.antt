-- ===== src/Golang.antt =====
-- The parts of Go's standard library that the packages rest on, as the source uses them.
pub mod Sort
pub mod Order
pub mod Text
pub mod Space
pub mod Hex
pub mod Atoi
pub mod Print
