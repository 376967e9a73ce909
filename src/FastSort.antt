-- ===== src/FastSort.antt =====
-- fast_sort.cc: sorting numbers by their bytes.
pub mod Passes
pub mod Buckets
pub mod Scatter
pub mod Counting
pub mod Rounds
pub mod Sorting
pub mod Sorts
pub mod Mapped
pub mod Signed
mod Tests
