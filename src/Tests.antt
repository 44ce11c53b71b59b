-- ===== src/Tests.antt =====
-- Runs of the code on concrete inputs, and applications of the theorems to them.
mod Fixtures
mod Queues
mod Mutations
mod Snapshots
mod Failures
mod Values
mod Contracts
mod Studio
mod Selections
mod Pods
mod Codec
mod Objects
