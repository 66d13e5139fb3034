-- ===== src/Syntax/Lexer/RoundTrip.antt =====
-- Texts of words and operators, and what the lexer of crates/wsharp-syntax/src/lexer.rs reads in them.
mod Signs
mod Words
pub mod Fixed
pub mod Printed
