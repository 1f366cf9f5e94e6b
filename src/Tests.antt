-- ===== src/Tests.antt =====
-- Concrete inputs for the theorems, by part of the program.
mod Counters
mod Sampling
mod Export
mod Targets
mod Sessions
mod Watchpoints
mod Numbers
mod Live
mod Events
mod Descriptors
mod Manifests
mod Sampler
mod Launch
