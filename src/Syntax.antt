-- ===== src/Syntax.antt =====
-- The syntax of W#, crates/wsharp-syntax/src.
pub mod Token
pub mod Lexer
