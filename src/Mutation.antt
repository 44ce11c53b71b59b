-- ===== src/Mutation.antt =====
-- src/wyreplumber/runtime/controls.py: mutation requests, their dispatch, and their outcomes.
pub mod Kinds
pub mod Texts
pub mod Predicate
pub mod Request
pub mod Outcome
pub mod Ticket
pub mod Observation
pub mod Failures
pub mod Execution
pub mod Deadline
pub mod Payload
pub mod Consistency
pub mod Tickets
pub mod Termination
pub mod Unavailable
pub mod Verdict
pub mod Sound
pub mod Confirmed
pub mod Dispatch
