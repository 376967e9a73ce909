-- ===== src/SlateCombiner.antt =====
-- SlateCombiner.cc and SlateCombiner.h: the elements of up to three redundant sources, voted into one.
pub mod Types
pub mod Bins
pub mod Combine
pub mod Freshness
pub mod Loops
pub mod Outputs
pub mod Passes
pub mod Layout
pub mod Voting
pub mod Masking
pub mod Downselect
mod Tests
