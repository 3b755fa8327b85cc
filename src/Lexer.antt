-- ===== src/Lexer.antt =====
-- lexer/: the scanner, the raw tokens, and the tokens with their trivia.
pub mod Scanner
pub mod Words
pub mod Literals
pub mod Operators
pub mod Raw
pub mod Moves
pub mod Scans
pub mod Locates
pub mod Builder
pub mod Attach
pub mod Syntax
pub mod Compact
