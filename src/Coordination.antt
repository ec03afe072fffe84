-- ===== src/Coordination.antt =====
-- The coordination layer (coordination/): ordered delivery to consumer groups, the exactly-once log,
-- the consensus log and the coordinator that joins them.
pub mod ConsumerGroup
pub mod Dedup
pub mod Groups
pub mod Raft
pub mod Coordinator
