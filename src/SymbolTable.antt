-- ===== src/SymbolTable.antt =====
-- SymbolTable.cc and SymbolTable.h: names for integers, both ways.
pub mod Table
pub mod Entries
mod Tests
