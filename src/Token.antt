-- ===== src/Token.antt =====
-- token/: kinds, positions, tokens and trivia.
pub mod Kind
pub mod Keyword
pub mod Compact
pub mod Types
pub mod Locate
pub mod LineMap
