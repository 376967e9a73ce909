-- ===== src/SlateBuilder.antt =====
-- SlateBuilder.cc: views of the slate that are rooted in a subtree, with masks and permissions.
pub mod Builder
pub mod Masks
pub mod SubSlates
pub mod Names
pub mod Collisions
pub mod Listing
mod Tests
