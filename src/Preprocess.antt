-- ===== src/Preprocess.antt =====
-- preprocess/: the table of macros and the conditions of `#if`.
pub mod Int64
pub mod Values
pub mod Macros
pub mod Eval
pub mod IfExpr
pub mod Frame
pub mod Pattern
pub mod Substitute
pub mod Comments
pub mod Conditionals
