-- ===== src/Tests.antt =====
-- The theorems at concrete inputs, and runs of the code.
mod Tags
mod Sync
mod Cards
mod Lifecycle
mod Runs
mod Pages
mod Toy
mod Mutation
mod References
mod Repair
