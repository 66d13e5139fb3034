-- ===== src/Syntax/Lexer/Total.antt =====
-- The runs of the lexer of crates/wsharp-syntax/src/lexer.rs over a text of UTF-8.
pub mod Kinds
mod Trivia
mod Words
mod Strings
mod Numbers
mod Symbols
mod Tokens
pub mod Streams
pub mod Returns
