-- ===== src/Runtime.antt =====
-- The runtime that compiled programs are linked with, crates/wsharp-runtime/src.
pub mod Heap
pub mod Types
pub mod Memory
pub mod Transfer
pub mod Mark
pub mod Trace
pub mod Shared
pub mod Header
pub mod Broker
