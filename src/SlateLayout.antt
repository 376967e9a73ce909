-- ===== src/SlateLayout.antt =====
-- SlateLayout.cc, SlateLayout.h and AlignedBuffer.cc: where the elements of the slate are in memory.
pub mod Types
pub mod Buffer
pub mod Growing
pub mod Space
pub mod Carving
pub mod Alignment
pub mod Chunks
pub mod Finding
pub mod Overflow
pub mod Layout
pub mod Access
pub mod Occupancy
pub mod Registering
pub mod Allocation
pub mod Elements
pub mod Viewing
pub mod Views
pub mod Queries
pub mod Beginning
mod Samples
mod Tests
