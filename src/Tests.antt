-- ===== src/Tests.antt =====
-- The theorems at concrete inputs.
mod Example
mod Written
mod Calls
mod Loops
mod Sequences
mod Setup
mod Boxes
mod Stale
mod Messages
mod Clients
mod Broker
mod Handlers
mod Service
mod Publisher
