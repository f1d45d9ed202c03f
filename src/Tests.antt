-- ===== src/Tests.antt =====
-- The theorems at concrete inputs.
mod Streams
mod Configuration
mod Labelling
mod Delivering
mod Juniper
mod Published
mod Workers
mod Starting
mod Updates
mod Served
mod Joining
mod Memory
