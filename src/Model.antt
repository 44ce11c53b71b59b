-- ===== src/Model.antt =====
-- src/wyreplumber/runtime/models.py: the value objects of a snapshot, its indexes and the
-- relationships between its objects.
pub mod Objects
pub mod Serialize
pub mod Construct
pub mod Again
pub mod Rebuild
pub mod Reconnect
pub mod Index
pub mod Contents
pub mod Relations
pub mod Parts
pub mod Audio
pub mod Routes
pub mod Resolves
pub mod Coherence
pub mod Converse
pub mod Agreement
pub mod Snapshot
