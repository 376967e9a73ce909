-- ===== src/SlateTokens.antt =====
-- slate_tokens.cc and slate_tokens.h: the accountant that finds tokens that were never bound.
pub mod Accountant
pub mod Tokens
pub mod Account
pub mod Lifetime
pub mod Check
pub mod Run
mod Tests
