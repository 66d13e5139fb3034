-- ===== src/Codegen.antt =====
-- The code generator, crates/wsharp-codegen/src.
pub mod Repr
