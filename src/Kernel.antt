-- ===== src/Kernel.antt =====
-- The kernel module, kernel/rd_wpctl.c: the state of a thread under measurement, the handlers of its
-- breakpoints and watchpoints, and the session behind the device.
pub mod State
pub mod Address
pub mod Callchain
pub mod Tables
pub mod Slots
pub mod Hits
pub mod Lifecycle
pub mod Session
pub mod Live
pub mod Events
