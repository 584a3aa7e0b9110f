-- ===== src/Uint32Set.antt =====
-- staging/kos/pkg/uint32set: sets of 32-bit numbers.
pub mod Keys
pub mod Library
pub mod Sorted
pub mod Runs
pub mod Nodes
pub mod Contents
pub mod Choose
pub mod Ascending
pub mod Export
pub mod Hash
pub mod Contract
mod Tests
