-- ===== src/Targeted.antt =====
-- The targeted reuse-distance profiler: src/targeted_rd.cc and what it shares with kernel/rd_wpctl.c.
pub mod Bucket
pub mod Window
pub mod Threads
pub mod Text
pub mod Operand
pub mod Manifest
