-- ===== src/Monitor.antt =====
-- src/monitor.cc and include/monitor.hh: the sampling side of class `Monitor`.
pub mod State
pub mod Maps
pub mod Hotspot
pub mod Flush
pub mod Decode
pub mod Ring
pub mod Threads
pub mod Export
pub mod Sampler
pub mod Counters
