-- ===== src/Raft.antt =====
-- infrastructure/cluster_network/raft.py
pub mod Node
pub mod Log
pub mod Commands
pub mod Votes
pub mod Append
pub mod Merge
pub mod Snapshot
pub mod Load
pub mod Leader
pub mod Change
pub mod Frame
pub mod Durable
pub mod Keeps
pub mod LeaderKeeps
pub mod Restart
pub mod Step
pub mod WellFormed
pub mod Replicate
pub mod JointConsensus
pub mod Commit
pub mod Apply
pub mod Compaction
pub mod Granted
pub mod Waiting
pub mod TornCompaction
mod Tests
