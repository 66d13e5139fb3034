-- ===== src/Sema.antt =====
-- The semantic analyser, crates/wsharp-sema/src.
pub mod Ty
pub mod Store
pub mod Unify
pub mod Schemes
pub mod ErrorSets
pub mod Structs
pub mod Ints
pub mod Layout
